-- ===== src/Queue/Wire.antt =====
-- A codec of jobs, which shows that the round trip that the queue relies on can be had. It stands in
-- for `encoding/json` in the tests alone.
use web3airdrop_os.Base.{ℕ, zero, suc, ◌≡◌, refl, Option, none, some, [], ◌∷◌, ◌++◌, length}
use web3airdrop_os.Base.Text.{Text, take, drop, take-length, drop-length}
use web3airdrop_os.Queue.Jobs.{Job, Status, Codec}

abbrev cells : Option ℕ → Text → Text
cells none t = 0 ∷ 0 ∷ t
cells (some n) t = 1 ∷ n ∷ t

abbrev flag : Option ℕ → ℕ
flag none = 0
flag (some n) = 1

abbrev amount : Option ℕ → ℕ
amount none = 0
amount (some n) = n

abbrev option_of : ℕ → ℕ → Option ℕ
option_of zero n = none
option_of (suc f) n = some n

option_of_lem : (o : Option ℕ) → option_of (flag o) (amount o) ≡ o
option_of_lem none = refl
option_of_lem (some n) = refl

abbrev rank : Status → ℕ
rank Status.pending = 0
rank Status.processing = 1
rank Status.completed = 2
rank Status.failed = 3
rank Status.retrying = 4

abbrev status_of : ℕ → Status
status_of zero = Status.pending
status_of (suc zero) = Status.processing
status_of (suc (suc zero)) = Status.completed
status_of (suc (suc (suc zero))) = Status.failed
status_of _ = Status.retrying

status_of_lem : (s : Status) → status_of (rank s) ≡ s
status_of_lem Status.pending = refl
status_of_lem Status.processing = refl
status_of_lem Status.completed = refl
status_of_lem Status.failed = refl
status_of_lem Status.retrying = refl

-- A text is written with its length in front.
abbrev sized : Text → Text → Text
sized t rest = length t ∷ (t ++ rest)

abbrev first : Text → Text
first [] = []
first (n ∷ xs) = take n xs

abbrev others : Text → Text
others [] = []
others (n ∷ xs) = drop n xs

abbrev texts : Job → Text
texts j = sized j.id (
    sized j.type (
      sized j.payload (sized j.error (sized j.result (sized j.locked_by (sized j.dedupe_key []))))))

pub encode : Job → Text
encode j =
    j.priority
    ∷ rank j.status
    ∷ j.retry_count
    ∷ j.max_retries
    ∷ j.created_at
    ∷ flag j.started_at
    ∷ amount j.started_at
    ∷ flag j.completed_at
    ∷ amount j.completed_at
    ∷ flag j.scheduled_at
    ∷ amount j.scheduled_at
    ∷ flag j.locked_until
    ∷ amount j.locked_until
    ∷ texts j

pub decode : Text → Option Job
decode (p ∷ st ∷ rc ∷ mr ∷ cr ∷ f1 ∷ a1 ∷ f2 ∷ a2 ∷ f3 ∷ a3 ∷ f4 ∷ a4 ∷ t) = some (record {
  id = first t;
  type = first (others t);
  payload = first (others (others t));
  priority = p;
  status = status_of st;
  retry_count = rc;
  max_retries = mr;
  error = first (others (others (others t)));
  result = first (others (others (others (others t))));
  created_at = cr;
  started_at = option_of f1 a1;
  completed_at = option_of f2 a2;
  scheduled_at = option_of f3 a3;
  locked_by = first (others (others (others (others (others t)))));
  locked_until = option_of f4 a4;
  dedupe_key = first (others (others (others (others (others (others t))))));
})
decode _ = none

pub decode-encode : (j : Job) → decode (encode j) ≡ some j
unfolding encode decode
decode-encode j = simp (option_of_lem, status_of_lem, take-length, drop-length)

unfoldable pub wire : Codec
unfolding encode decode take drop
wire = record { encode = encode; decode = decode; decode-encode = decode-encode }
