-- ===== src/Client/Stdio/Chunks.antt =====
-- The portions in which src/client.rs reads its standard input do not matter.
use tekes_memory.Prelude.{
  ◌≡◌, refl, sym, ◌∙◌, ap, ℕ, String, List, [], ◌∷◌, ◌++◌, Option, none, some, Bool, true, if_true,
}
use tekes_memory.Json.Access.{is_some}
use tekes_memory.Common.{Env, Result}
use tekes_memory.Client.Stdio.{Sent, Reader, Read, chunk, take_byte, take_bytes, take_reads, at_end}

-- The end of the input, unless the reader has ended.
abbrev pub finish : Reader → Reader
finish d = elim d.ended [ some x ↦ d | none ↦ at_end d ]

-- The bytes of all portions, one after the other.
abbrev pub bytes_of : List (ℕ × List ℕ) → List ℕ
bytes_of [] = []
bytes_of ((b, bs) ∷ rest) = (b ∷ bs) ++ bytes_of rest

abbrev pub reads_of : List (ℕ × List ℕ) → List Read
reads_of [] = chunk [] ∷ []
reads_of ((b, bs) ∷ rest) = chunk (b ∷ bs) ∷ reads_of rest

module _ (env : Env) (utf8 : List ℕ → Option String) (takes : List Sent → Sent → Bool) where
  take_byte-ended : (b : ℕ) (d : Reader) → is_some d.ended ≡ true → take_byte env utf8 takes b d ≡ d
  unfolding take_byte
  take_byte-ended b d h = if_true _ _ _ h

  take_bytes-ended :
      (bs : List ℕ) (d : Reader) → is_some d.ended ≡ true → take_bytes env utf8 takes bs d ≡ d
  unfolding take_bytes
  take_bytes-ended [] d h = refl
  take_bytes-ended (b ∷ bs) d h = rw (take_byte-ended b d h) (take_bytes-ended bs d h)

  take_bytes-append :
      (bs cs : List ℕ) (d : Reader)
      → take_bytes env utf8 takes (bs ++ cs) d
        ≡ take_bytes env utf8 takes cs (take_bytes env utf8 takes bs d)
  unfolding take_bytes
  take_bytes-append [] cs d = refl
  take_bytes-append (b ∷ bs) cs d = take_bytes-append bs cs (take_byte env utf8 takes b d)

  finish-ended : (d : Reader) (x : Result (Unit {0})) → d.ended ≡ some x → finish d ≡ d
  finish-ended d x h = rw h refl

  -- A portion that is read is followed by the others, unless the reader has ended.
  read_on :
      (bs cs : List ℕ) (d : Reader) (o : Option (Result (Unit {0})))
      → d.ended ≡ o
      → (rest : Reader)
      → rest ≡ finish (take_bytes env utf8 takes cs (take_bytes env utf8 takes bs d))
      → elim o [ some x ↦ d | none ↦ rest ] ≡ finish (take_bytes env utf8 takes (bs ++ cs) d)
  read_on bs cs d (some x) e rest h =
      sym (ap finish (take_bytes-ended (bs ++ cs) d (ap is_some e)) ∙ finish-ended d x e)
  read_on bs cs d none e rest h = h ∙ ap finish (sym (take_bytes-append bs cs d))

  -- Standard input that is read in portions, none of them empty, up to its end leaves the reader as if
  -- its bytes were taken one after the other, whatever the portions are.
  pub take_reads-bytes :
      (portions : List (ℕ × List ℕ)) (d : Reader)
      → take_reads env utf8 takes (reads_of portions) d
        ≡ finish (take_bytes env utf8 takes (bytes_of portions) d)
  unfolding take_reads take_bytes
  take_reads-bytes [] d = refl
  take_reads-bytes ((b, bs) ∷ rest) d =
      read_on (b ∷ bs) (bytes_of rest) d d.ended refl _
        (take_reads-bytes rest (take_bytes env utf8 takes bs (take_byte env utf8 takes b d)))
