-- ===== src/Queue/Backoff.antt =====
-- The delay before a retry: `time.Duration(1<<uint(n)) * time.Second` in 64 bits, cut at 5 minutes.
use native.Mathlib.Nat.{pow-suc, suc-add}
use web3airdrop_os.Base.{
  ℕ, zero, suc, ◌+◌, ◌-◌, ◌*◌, ◌%◌, ◌^◌, ◌<◌, ◌≡◌, refl, Bool, true, false, ◌&&◌, not, arith, ltb,
  leb, ◌==◌, ==_iff, if◌then◌else◌, min,
}

abbrev pub second : ℕ
second = 1000000000

abbrev pub millisecond : ℕ
millisecond = 1000000

abbrev pub five_minutes : ℕ
five_minutes = 300 * second

abbrev u64_mod : ℕ
u64_mod = 2 ^ 64

-- The bit pattern of the int64 product; it is negative from 2 ^ 63 on.
unfoldable pub raw_backoff : ℕ → ℕ
raw_backoff n = (2 ^ n % u64_mod) * second % u64_mod

abbrev pub is_negative : ℕ → Bool
is_negative d = leb (2 ^ 63) d

unfoldable pub backoff : ℕ → ℕ
unfolding raw_backoff
backoff n =
    let d = raw_backoff n in if not (is_negative d) && ltb five_minutes d then five_minutes else d

-- `now.Add(d)`, for the bit pattern of a duration.
unfoldable pub after : ℕ → ℕ → ℕ
after now d = if is_negative d then now - (u64_mod - d) else now + d

-- A test that passes at each shift under a bound.
passes_under : (ℕ → Bool) → ℕ → Bool
passes_under test zero = true
passes_under test (suc bound) = if test bound then passes_under test bound else false

passes_at :
    (test : ℕ → Bool) (bound shift : ℕ)
    → shift < bound
    → passes_under test bound ≡ true
    → test shift ≡ true
unfolding passes_under
passes_at test zero shift lt passed = elim lt [ ]
passes_at test (suc bound) shift lt passed = ground (arith, passes_at test bound shift)

backoff_table : passes_under (λ n. backoff n == min (2 ^ n) 300 * second) 34 ≡ true
unfolding passes_under backoff
backoff_table = refl

-- Up to the 33rd retry the delay is 2 ^ n seconds, and 5 minutes at most.
pub backoff_doubles : (n : ℕ) → n < 34 → backoff n ≡ min (2 ^ n) 300 * second
backoff_doubles n h = (==_iff _ _).0 (passes_at _ 34 n h backoff_table)

-- From the 55th shift on the product is a multiple of 2 ^ 64.
pow_factor : (k : ℕ) → (q : ℕ) × (2 ^ (k + 55) ≡ q * 2 ^ 55)
pow_factor zero = (1, refl)
pow_factor (suc k) =
    let (q, e) = pow_factor k in (q * 2, rw suc-add (omega (arith, pow-suc 2 (k + 55), e)))

product_wraps : (q : ℕ) → (q * 2 ^ 55 % u64_mod) * second % u64_mod ≡ 0
product_wraps q = omega arith

-- With 55 retries and more behind it, a job is retried with no delay at all: the product wraps to 0.
pub backoff_wraps : (k : ℕ) → backoff (k + 55) ≡ 0
unfolding backoff
backoff_wraps k = let (q, e) = pow_factor k in rw (e, product_wraps q) refl
