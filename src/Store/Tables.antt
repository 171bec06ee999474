-- ===== src/Store/Tables.antt =====
-- The tables of src/schema.sql, each a list of its rows in the order of insertion. A query with no
-- `ORDER BY` reads its rows in that order.
use tekes_memory.Prelude.{
  ℕ, ℤ, Bool, String, List, [], ◌∷◌, ◌++◌, Option, not, any, select, if◌then◌else◌,
}

pub record RecordRow : Type 0 where
  pub id : String
  pub scope : String
  pub kind : String
  pub revision : ℤ
  pub status : String
  pub expires : Option ℤ
  pub doc : String
  pub fact_key : Option String

pub record VersionRow : Type 0 where
  pub id : String
  pub revision : ℤ
  pub doc : String

pub record IndexRow : Type 0 where
  pub id : String
  pub words : String

pub record OperationRow : Type 0 where
  pub id : String
  pub principal : String
  pub scope : String
  pub key : String
  pub digest : String
  pub result : String

pub record ReceiptRow : Type 0 where
  pub principal : String
  pub key : String
  pub scope : String
  pub digest : String
  pub result : String

pub record ObservationRow : Type 0 where
  pub id : String
  pub scope : String
  pub source_key : String
  pub digest : String
  pub payload : String
  pub state : String
  pub record_id : Option String

pub record JobRow : Type 0 where
  pub id : String
  pub state : String
  pub attempts : ℕ
  pub next_at : ℤ
  pub error : Option String

pub record DependencyRow : Type 0 where
  pub record_id : String
  pub source_key : String

pub record TombstoneRow : Type 0 where
  pub scope : String
  pub source_key : String

-- `generation` is the counter that `meta` holds as a text, beside the secret of the cursors.
pub record Db : Type 0 where
  pub records : List RecordRow
  pub versions : List VersionRow
  pub search_index : List IndexRow
  pub operations : List OperationRow
  pub effect_receipts : List ReceiptRow
  pub observations : List ObservationRow
  pub jobs : List JobRow
  pub dependencies : List DependencyRow
  pub tombstones : List TombstoneRow
  pub generation : ℕ
  pub cursor_secret : String

-- The tables of a database that `Store::open` has just made.
abbrev pub empty_db : String → Db
empty_db secret = record {
  records = [];
  versions = [];
  search_index = [];
  operations = [];
  effect_receipts = [];
  observations = [];
  jobs = [];
  dependencies = [];
  tombstones = [];
  generation = 0;
  cursor_secret = secret;
}

-- `INSERT OR REPLACE`: a row with the new row's key is taken out first.
unfoldable pub replace_row {ℓ} : {A : Type ℓ} → (A → Bool) → A → List A → List A
unfolding select
replace_row same a rows = select (λ r. not (same r)) rows ++ a ∷ []

-- `INSERT OR IGNORE`
unfoldable pub insert_or_ignore {ℓ} : {A : Type ℓ} → (A → Bool) → A → List A → List A
unfolding any
insert_or_ignore same a rows = if any same rows then rows else rows ++ a ∷ []

-- `DELETE … WHERE`
unfoldable pub delete_where {ℓ} : {A : Type ℓ} → (A → Bool) → List A → List A
unfolding select
delete_where f rows = select (λ r. not (f r)) rows
