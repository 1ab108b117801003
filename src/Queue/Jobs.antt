-- ===== src/Queue/Jobs.antt =====
-- The job record of queue.go, its options, and its JSON.
use web3airdrop_os.Base.{
  ℕ, ◌+◌, ◌≡◌, Bool, true, false, Option, none, some, List, [], ◌∷◌, refl, ◌∙◌,
}
use web3airdrop_os.Base.Text.{Text}

pub data Status : Type 0 where
  pending processing completed failed retrying : Status

abbrev pub priority_low : ℕ
priority_low = 1

abbrev pub priority_normal : ℕ
priority_normal = 5

abbrev pub priority_high : ℕ
priority_high = 10

-- `Payload` and `Result` are raw JSON texts.
pub record Job : Type 0 where
  pub id : Text
  pub type : Text
  pub payload : Text
  pub priority : ℕ
  pub status : Status
  pub retry_count : ℕ
  pub max_retries : ℕ
  pub error : Text
  pub result : Text
  pub created_at : ℕ
  pub started_at : Option ℕ
  pub completed_at : Option ℕ
  pub scheduled_at : Option ℕ
  pub locked_by : Text
  pub locked_until : Option ℕ
  pub dedupe_key : Text

-- `json.Marshal` of a job does not fail: its raw parts come from `json.Marshal` themselves. What the
-- queue relies on is that `json.Unmarshal` gives the job back.
pub record Codec : Type 0 where
  pub encode : Job → Text
  pub decode : Text → Option Job
  pub decode-encode : (j : Job) → decode (encode j) ≡ some j

-- `now` is the clock when the option is applied.
pub data JobOption : Type 0 where
  with_priority : ℕ → JobOption
  with_max_retries : ℕ → JobOption
  with_delay : (now delay : ℕ) → JobOption
  with_scheduled_at : ℕ → JobOption
  with_deduplication : Text → JobOption

unfoldable pub apply_option : JobOption → Job → Job
apply_option (with_priority p) j = record j { priority = p }
apply_option (with_max_retries n) j = record j { max_retries = n }
apply_option (with_delay now delay) j = record j { scheduled_at = some (now + delay) }
apply_option (with_scheduled_at t) j = record j { scheduled_at = some t }
apply_option (with_deduplication k) j = record j { dedupe_key = k }

unfoldable pub new_job : Text → Text → ℕ → Job
new_job id type now = record {
  id = id;
  type = type;
  payload = [];
  priority = priority_normal;
  status = pending;
  retry_count = 0;
  max_retries = 3;
  error = [];
  result = [];
  created_at = now;
  started_at = none;
  completed_at = none;
  scheduled_at = none;
  locked_by = [];
  locked_until = none;
  dedupe_key = [];
}

id-apply_option : (f : JobOption) (j : Job) → (apply_option f j).id ≡ j.id
unfolding apply_option
id-apply_option (with_priority p) j = refl
id-apply_option (with_max_retries n) j = refl
id-apply_option (with_delay now delay) j = refl
id-apply_option (with_scheduled_at t) j = refl
id-apply_option (with_deduplication k) j = refl

unfoldable pub apply_options : List JobOption → Job → Job
unfolding apply_option
apply_options [] j = j
apply_options (f ∷ fs) j = apply_options fs (apply_option f j)

abbrev pub is_empty : Text → Bool
is_empty [] = true
is_empty (x ∷ xs) = false

pub id-apply_options : (fs : List JobOption) (j : Job) → (apply_options fs j).id ≡ j.id
unfolding apply_options
id-apply_options [] j = refl
id-apply_options (f ∷ fs) j = id-apply_options fs (apply_option f j) ∙ id-apply_option f j
