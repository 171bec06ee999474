-- ===== src/Store/Tombstones.antt =====
-- Tombstones and stored answers as properties that last (`Store/Stable.antt`).
use tekes_memory.Prelude.{
  ◌≡◌, ap, ◌∙◌, Bool, true, String, List, [], ◌∷◌, ◌++◌, some, arith, any, find_first, ◌==◌, ◌&&◌,
}
use tekes_memory.Store.Tables.{Db, TombstoneRow, OperationRow, ReceiptRow, insert_or_ignore}
use tekes_memory.Store.Put.{is_tombstoned}
use tekes_memory.Store.Lineage.{add_tombstone}
use tekes_memory.Store.Call.{add_operation, add_receipt, is_repeat, is_receipt}
use tekes_memory.Store.Stable.{Stable}

module _ {ℓ} {A : Type ℓ} where
  any-append : (f : A → Bool) (xs ys : List A) → any f xs ≡ true → any f (xs ++ ys) ≡ true
  unfolding any
  any-append f [] ys h = absurd (cc)
  any-append f (x ∷ xs) ys h = ground (arith, any-append f xs ys)

  find_first-append :
      (f : A → Bool) (xs ys : List A) (a : A)
      → find_first f xs ≡ some a
      → find_first f (xs ++ ys) ≡ some a
  unfolding find_first
  find_first-append f [] ys a h = cc
  find_first-append f (x ∷ xs) ys a h = ground (arith, find_first-append f xs ys a)

module _ (scope key : String) where
  abbrev pub Dead : Db → Type 0
  Dead db = is_tombstoned scope key db ≡ true

  add_tombstone-Dead : (sc k : String) (db : Db) → Dead db → Dead (add_tombstone sc k db)
  unfolding add_tombstone insert_or_ignore is_tombstoned
  add_tombstone-Dead sc k db h = ground (
    arith,
    any-append (λ (t : TombstoneRow). t.scope == scope && t.source_key == key) db.tombstones
        (record { scope = sc; source_key = k } ∷ []),
  )

  pub Dead-Stable : Stable Dead
  unfolding is_tombstoned add_operation add_receipt
  Dead-Stable = record {
    framed = record {
      frame = λ db db' t o r h.
          ap (any (λ (x : TombstoneRow). x.scope == scope && x.source_key == key)) t ∙ h;
      tombstone = add_tombstone-Dead;
    };
    operation = λ o db h. h;
    receipt = λ r db h. h;
  }

-- The answer that a request got is stored.
module _ (principal scope key : String) (o : OperationRow) where
  abbrev pub Answered : Db → Type 0
  Answered db = find_first (is_repeat principal scope key) db.operations ≡ some o

  pub Answered-Stable : Stable Answered
  unfolding add_tombstone add_operation add_receipt
  Answered-Stable = record {
    framed = record {
      frame = λ db db' t e r h. ap (find_first (is_repeat principal scope key)) e ∙ h;
      tombstone = λ sc k db h. h;
    };
    operation = λ x db h. find_first-append _ db.operations (x ∷ []) o h;
    receipt = λ r db h. h;
  }

-- The receipt of an effect key is stored.
module _ (principal key : String) (r : ReceiptRow) where
  abbrev pub Receipted : Db → Type 0
  Receipted db = find_first (is_receipt principal key) db.effect_receipts ≡ some r

  pub Receipted-Stable : Stable Receipted
  unfolding add_tombstone add_operation add_receipt
  Receipted-Stable = record {
    framed = record {
      frame = λ db db' t e p h. ap (find_first (is_receipt principal key)) p ∙ h;
      tombstone = λ sc k db h. h;
    };
    operation = λ x db h. h;
    receipt = λ x db h. find_first-append _ db.effect_receipts (x ∷ []) r h;
  }
