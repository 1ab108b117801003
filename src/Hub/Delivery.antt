-- ===== src/Hub/Delivery.antt =====
-- What the loops of a broadcast leave in the channels.
use web3airdrop_os.Base.{
  ℕ, ◌≤◌, ◌≡◌, refl, sym, ap, ◌∙◌, Bool, true, false, not, List, [], ◌∷◌, ◌++◌, arith, ok, err,
  keep, ◌==◌, if◌then◌else◌, Bool-cases, inl, inr,
}
use web3airdrop_os.Base.Text.{Text}
use web3airdrop_os.Hub.Maps.{mem, count, counted_once}
use web3airdrop_os.Hub.Clients.{
  Client, send_on_closed_channel, set, is_full, offer, after, kept, send_each, send_all,
}
use web3airdrop_os.Hub.Agreement.{same_number}

-- An open channel takes the message, or is closed if it is full.
abbrev pub offered : Text → Client → Client
offered m x =
    if is_full x then record x { closed = true } else record x { send = x.send ++ (m ∷ []) }

offer_open : (m : Text) (x : Client) → x.closed ≡ false → offer m x ≡ ok (offered m x)
unfolding offer
offer_open m x h = elim (Bool-cases (is_full x)) [
  | inl full ↦ rw (h, full) refl
  | inr room ↦ rw (h, room) refl
]

offer_closed : (m : Text) (x : Client) → x.closed ≡ true → offer m x ≡ err send_on_closed_channel
unfolding offer
offer_closed m x h = rw h refl

abbrev AllOpen : List ℕ → (ℕ → Client) → Type 0
AllOpen cs p = (c : ℕ) → mem c cs ≡ true → (p c).closed ≡ false

abbrev AllApart : List ℕ → Type 0
AllApart cs = (c : ℕ) → count c cs ≤ 1

abbrev pub IsOffered : Text → List ℕ → (ℕ → Client) → (ℕ → Client) → Type 0
IsOffered m cs p q = (d : ℕ) → q d ≡ (if mem d cs then offered m (p d) else p d)

head_apart : (c : ℕ) (cs : List ℕ) → AllApart (c ∷ cs) → mem c cs ≡ false
head_apart c cs h = counted_once c cs (ground (arith, h c))

tail_apart : (c : ℕ) (cs : List ℕ) → AllApart (c ∷ cs) → AllApart cs
tail_apart c cs h d = ground (arith, h d)

-- A client of the rest of the loop is another one.
set_other :
    (c d : ℕ) (cs : List ℕ) (x : Client) (p : ℕ → Client)
    → mem c cs ≡ false
    → mem d cs ≡ true
    → set c x p d ≡ p d
set_other c d cs x p out there = elim (Bool-cases (c == d)) [
  | inl same ↦
      let clash : true ≡ false =
        sym there ∙ ap (λ e. mem e cs) (sym (same_number c d same)) ∙ out in
      cc
  | inr other ↦ rw other refl
]

tail_open :
    (c : ℕ) (cs : List ℕ) (x : Client) (p : ℕ → Client)
    → mem c cs ≡ false
    → AllOpen (c ∷ cs) p
    → AllOpen cs (set c x p)
tail_open c cs x p out h d there =
    ap (λ y. y.closed) (set_other c d cs x p out there) ∙ h d (ground (arith, there))

offered_next :
    (m : Text) (c : ℕ) (cs : List ℕ) (p q : ℕ → Client)
    → mem c cs ≡ false
    → IsOffered m cs (set c (offered m (p c)) p) q
    → IsOffered m (c ∷ cs) p q
offered_next m c cs p q out h d = h d ∙ elim (Bool-cases (c == d)) [
  | inl same ↦
      let is = same_number c d same in
      let out' : mem d cs ≡ false = ap (λ e. mem e cs) (sym is) ∙ out in
      rw (out', same) (ap (λ e. offered m (p e)) is)
  | inr other ↦ rw other refl
]

pub send_each-IsOffered :
    (m : Text) (cs : List ℕ) (p : ℕ → Client)
    → AllOpen cs p
    → AllApart cs
    → (q : ℕ → Client) × (send_each m cs p ≡ ok q) × IsOffered m cs p q
unfolding send_each
send_each-IsOffered m [] p h a = (p, refl, λ d. refl)
send_each-IsOffered m (c ∷ cs) p h a =
    let out = head_apart c cs a in
    let x = offered m (p c) in
    let (q, done, all_offered) =
      send_each-IsOffered m cs (set c x p) (tail_open c cs x p out h) (tail_apart c cs a) in
    (
      q,
      ap (λ o. after o (λ y. send_each m cs (set c y p))) (offer_open m (p c) (h c (ground arith)))
          ∙ done,
      offered_next m c cs p q out all_offered,
    )

abbrev pub keeping : (ℕ → Client) → List ℕ → List ℕ
keeping p = keep (λ c. not (is_full (p c)))

keeping_tail :
    (c : ℕ) (cs : List ℕ) (x : Client) (p : ℕ → Client)
    → ((d : ℕ) → mem d cs ≡ true → set c x p d ≡ p d)
    → keeping (set c x p) cs ≡ keeping p cs
keeping_tail c [] x p h = refl
keeping_tail c (d ∷ cs) x p h =
    let same : set c x p d ≡ p d = h d (ground arith) in
    let rest = keeping_tail c cs x p (λ e there. h e (ground (arith, there))) in
    ap (λ y. if not (is_full y) then d ∷ keeping (set c x p) cs else keeping (set c x p) cs) same
    ∙ ap (λ es. if not (is_full (p d)) then d ∷ es else es) rest

kept_lem :
    (b : Bool) (c : ℕ) (cs : List ℕ) (q : ℕ → Client)
    → kept b c (cs, q) ≡ (if not b then c ∷ cs else cs, q)
kept_lem true c cs q = refl
kept_lem false c cs q = refl

pub send_all-IsOffered :
    (m : Text) (cs : List ℕ) (p : ℕ → Client)
    → AllOpen cs p
    → AllApart cs
    → (q : ℕ → Client) × (send_all m cs p ≡ ok (keeping p cs, q)) × IsOffered m cs p q
unfolding send_all
send_all-IsOffered m [] p h a = (p, refl, λ d. refl)
send_all-IsOffered m (c ∷ cs) p h a =
    let out = head_apart c cs a in
    let x = offered m (p c) in
    let (q, done, all_offered) =
      send_all-IsOffered m cs (set c x p) (tail_open c cs x p out h) (tail_apart c cs a) in
    (
      q,
      ap
            (λ o.
              after o (λ y. after (send_all m cs (set c y p)) (λ r. ok (kept (is_full (p c)) c r))))
            (offer_open m (p c) (h c (ground arith)))
          ∙ ap (λ o. after o (λ r. ok (kept (is_full (p c)) c r))) done
          ∙ ap ok (
              kept_lem (is_full (p c)) c (keeping (set c x p) cs) q
              ∙ ap (λ es. (if not (is_full (p c)) then c ∷ es else es, q))
                  (keeping_tail c cs x p (λ d there. set_other c d cs x p out there))),
      offered_next m c cs p q out all_offered,
    )

-- A closed channel among them stops the loop.
pub send_each_closed :
    (m : Text) (c : ℕ) (cs : List ℕ) (p : ℕ → Client)
    → mem c cs ≡ true
    → (p c).closed ≡ true
    → send_each m cs p ≡ err send_on_closed_channel
unfolding send_each
send_each_closed m c [] p there h = cc
send_each_closed m c (d ∷ cs) p there h = elim (Bool-cases (p d).closed) [
  | inl closed ↦ ap (λ o. after o (λ y. send_each m cs (set d y p))) (offer_closed m (p d) closed)
  | inr usable ↦ elim (Bool-cases (d == c)) [
    | inl same ↦
        let clash : true ≡ false =
          sym h ∙ ap (λ e. (p e).closed) (sym (same_number d c same)) ∙ usable in
        cc
    | inr other ↦
        let x = offered m (p d) in
        let later : mem c cs ≡ true = ground (arith, there, other) in
        let unset : set d x p c ≡ p c = rw other refl in
        ap (λ o. after o (λ y. send_each m cs (set d y p))) (offer_open m (p d) usable)
        ∙ send_each_closed m c cs (set d x p) later (ap (λ y. y.closed) unset ∙ h)
  ]
]
