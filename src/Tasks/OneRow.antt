-- ===== src/Tasks/OneRow.antt =====
-- A table that has room for one row: a database that keeps the promises of `Lawful`.
use web3airdrop_os.Base.{
  ℕ, ◌≡◌, refl, sym, ap, ◌∙◌, Bool, true, false, Option, none, some, Outcome, ok, err, arith,
  if◌then◌else◌, ◌&&◌, Bool-cases, inl, inr, subst, some_inj,
}
use web3airdrop_os.Base.Text.{Text, text_eq, text_eq_iff, text_eq_self}
use web3airdrop_os.Tasks.Records.{
  TaskExecution, Database, Lawful, DbError, record_not_found, unique_violation, failure, permits,
}

abbrev row_of : Option TaskExecution → Text → Option TaskExecution
row_of none id = none
row_of (some e) id = if text_eq e.id id then some e else none

abbrev found : Option TaskExecution → Outcome DbError TaskExecution
found none = err record_not_found
found (some e) = ok e

abbrev with_key : Text → Option TaskExecution → Outcome DbError TaskExecution
with_key k none = err record_not_found
with_key k (some e) = if text_eq e.idempotency_key k then ok e else err record_not_found

abbrev put :
    TaskExecution → Option TaskExecution → Option TaskExecution × (TaskExecution × Option DbError)
put e none = (some e, (e, none))
put e (some old) =
    if text_eq old.id e.id && permits old.status e.status
    then (some e, (e, none))
    else (some old, (e, some failure))

abbrev add :
    TaskExecution → Option TaskExecution → Option TaskExecution × (TaskExecution × Option DbError)
add e none = (some e, (e, none))
add e (some old) =
    if text_eq old.idempotency_key e.idempotency_key
    then (some old, (e, some unique_violation))
    else (some old, (e, some failure))

abbrev update :
    (TaskExecution → Bool)
    → (TaskExecution → TaskExecution)
    → Option TaskExecution
    → Text
    → Option TaskExecution × (ℕ × Option DbError)
update test f none id = (none, (0, none))
update test f (some e) id =
    if text_eq e.id id
    then (if test e
        then (if permits e.status (f e).status
            then (some (f e), (1, none))
            else (some e, (0, some failure)))
        else (some e, (0, none)))
    else (some e, (0, none))

-- Every task has the type and the manual flag that are given.
abbrev pub one_row : Text → Bool → Database
one_row type manual = record {
  Store = Option TaskExecution;
  row = row_of;
  find = λ id s. found (row_of s id);
  find_key = with_key;
  save = put;
  create = add;
  update_where = λ id test f s. update test f s id;
  find_task = λ id s. ok (type, manual);
}

row_of-some :
    (s : Option TaskExecution) (id : Text) (e : TaskExecution)
    → row_of s id ≡ some e
    → (s ≡ some e) × (e.id ≡ id)
row_of-some none id e h = cc
row_of-some (some x) id e h = ground (arith, text_eq_iff x.id id)

row_of_self : (e : TaskExecution) → row_of (some e) e.id ≡ some e
row_of_self e = rw (text_eq_self e.id) refl

with_key_ok :
    (k : Text) (s : Option TaskExecution) (e : TaskExecution)
    → with_key k s ≡ ok e
    → (row_of s e.id ≡ some e) × (e.idempotency_key ≡ k)
with_key_ok k none e h = cc
with_key_ok k (some x) e h = elim (Bool-cases (text_eq x.idempotency_key k)) [
  | inl same ↦
      let is_e : x ≡ e = ground (arith, h, same) in
      subst (λ y. (row_of (some x) y.id ≡ some y) × (y.idempotency_key ≡ k)) is_e
        (row_of_self x, (text_eq_iff _ _).0 same)
  | inr other ↦ ground (arith, h, other)
]

put_struct : (e : TaskExecution) (s : Option TaskExecution) → (put e s).1.0 ≡ e
put_struct e none = refl
put_struct e (some x) = ground arith

add_struct : (e : TaskExecution) (s : Option TaskExecution) → (add e s).1.0 ≡ e
add_struct e none = refl
add_struct e (some x) = ground arith

put_known :
    (e old : TaskExecution) (s : Option TaskExecution)
    → row_of s e.id ≡ some old
    → permits old.status e.status ≡ true
    → ((put e s).1.1 ≡ none) × (row_of (put e s).0 e.id ≡ some (put e s).1.0)
put_known e old s h may =
    let (is_old, same) = row_of-some s e.id old h in
    let here : text_eq old.id e.id ≡ true = (text_eq_iff old.id e.id).1 same in
    subst (λ t. ((put e t).1.1 ≡ none) × (row_of (put e t).0 e.id ≡ some (put e t).1.0))
      (sym is_old) (rw (here, may) (refl, row_of_self e))

put_refused :
    (e old : TaskExecution) (s : Option TaskExecution)
    → row_of s e.id ≡ some old
    → permits old.status e.status ≡ false
    → ((put e s).1.1 ≡ some failure) × ((put e s).0 ≡ s)
put_refused e old s h may =
    let (is_old, same) = row_of-some s e.id old h in
    let here : text_eq old.id e.id ≡ true = (text_eq_iff old.id e.id).1 same in
    subst (λ t. ((put e t).1.1 ≡ some failure) × ((put e t).0 ≡ t)) (sym is_old)
      (rw (here, may) (refl, refl))

add_stored :
    (e : TaskExecution) (s : Option TaskExecution)
    → (add e s).1.1 ≡ none
    → row_of (add e s).0 e.id ≡ some (add e s).1.0
add_stored e none h = row_of_self e
add_stored e (some x) h = ground (arith, h)

add_taken :
    (id : Text) (e old : TaskExecution) (s : Option TaskExecution)
    → row_of s id ≡ some old
    → old.idempotency_key ≡ e.idempotency_key
    → ((add e s).1.1 ≡ some unique_violation) × ((add e s).0 ≡ s)
add_taken id e old s h same =
    rw ((row_of-some s id old h).0, same) (rw (text_eq_self e.idempotency_key) (refl, refl))

update_hits :
    (id : Text) (test : TaskExecution → Bool) (f : TaskExecution → TaskExecution)
    (e : TaskExecution) (s : Option TaskExecution)
    → row_of s id ≡ some e
    → test e ≡ true
    → (f e).id ≡ e.id
    → permits e.status (f e).status ≡ true
    → ((update test f s id).1 ≡ (1, none)) × (row_of (update test f s id).0 id ≡ some (f e))
update_hits id test f e s h passes keeps may =
    let (is_e, same) = row_of-some s id e h in
    let here : text_eq e.id id ≡ true = (text_eq_iff e.id id).1 same in
    let there : row_of (some (f e)) id ≡ some (f e) =
      subst (λ i. row_of (some (f e)) i ≡ some (f e)) (keeps ∙ same) (row_of_self (f e)) in
    subst
      (λ y. ((update test f y id).1 ≡ (1, none)) × (row_of (update test f y id).0 id ≡ some (f e)))
      (sym is_e) (rw (here, passes, may) (refl, there))

update_refuses :
    (id : Text) (test : TaskExecution → Bool) (f : TaskExecution → TaskExecution)
    (e : TaskExecution) (s : Option TaskExecution)
    → row_of s id ≡ some e
    → test e ≡ true
    → permits e.status (f e).status ≡ false
    → ((update test f s id).1 ≡ (0, some failure)) × ((update test f s id).0 ≡ s)
update_refuses id test f e s h passes may =
    let (is_e, same) = row_of-some s id e h in
    let here : text_eq e.id id ≡ true = (text_eq_iff e.id id).1 same in
    subst (λ y. ((update test f y id).1 ≡ (0, some failure)) × ((update test f y id).0 ≡ y))
      (sym is_e) (rw (here, passes, may) (refl, refl))

update_misses :
    (id : Text) (test : TaskExecution → Bool) (f : TaskExecution → TaskExecution)
    (e : TaskExecution) (s : Option TaskExecution)
    → row_of s id ≡ some e
    → test e ≡ false
    → ((update test f s id).1 ≡ (0, none)) × ((update test f s id).0 ≡ s)
update_misses id test f e none h stays = cc
update_misses id test f e (some x) h stays =
    let (is_e, same) = row_of-some (some x) id e h in
    let here : text_eq e.id id ≡ true = (text_eq_iff e.id id).1 same in
    subst
      (λ y. ((update test f (some y) id).1 ≡ (0, none)) × ((update test f (some y) id).0 ≡ some y))
      (sym (some_inj is_e)) (rw (here, stays) (refl, refl))

pub one_row-Lawful : (type : Text) (manual : Bool) → Lawful (one_row type manual)
one_row-Lawful type manual = record {
  row_id = λ id s e h. (row_of-some s id e h).1;
  find_row = λ id s e h. ap found h;
  find_none = λ id s h. ap found h;
  find_key_row = λ id s e h. rw (row_of-some s id e h).0 (rw (text_eq_self e.idempotency_key) refl);
  find_key_ok = with_key_ok;
  save_stamped = λ e s. (e.updated_at, put_struct e s);
  save_known = λ e old s h same may. put_known e old s h may;
  save_refused = put_refused;
  create_stamped = λ e s. (e.updated_at, add_struct e s);
  create_stored = add_stored;
  create_taken = add_taken;
  update_hit = update_hits;
  update_refused = update_refuses;
  update_miss = update_misses;
}
