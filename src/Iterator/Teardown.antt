-- ===== src/Iterator/Teardown.antt =====
-- The order in which an iterator runs its cleanup functions.
use my_leveldb.Common.{Option, some, List, [], ◌∷◌, ◌>>=◌, ◌≡◌, refl}
use my_leveldb.Iterator.{
  Cleanup, Cleanups, Call, new_cleanups, register_cleanup, call_all, run_cleanups,
}

module _ {F : Type 0} where
  -- The registration of each call of a list, in its order.
  unfoldable pub register_all : List (Call F) → Cleanups F → Option (Cleanups F)
  register_all [] it = some it
  register_all (c ∷ cs) it = do
    it' ← register_cleanup (some c.function) c.arg1 c.arg2 it
    register_all cs it'

  abbrev pub cleanup_of : Call F → Cleanup F
  cleanup_of c = record { function = some c.function; arg1 = c.arg1; arg2 = c.arg2 }

  abbrev pub cleanups_of : List (Call F) → List (Cleanup F)
  cleanups_of [] = []
  cleanups_of (c ∷ cs) = cleanup_of c ∷ cleanups_of cs

  -- A list reversed in front of another.
  abbrev pub reverse_onto : List (Call F) → List (Call F) → List (Call F)
  reverse_onto [] ys = ys
  reverse_onto (x ∷ xs) ys = reverse_onto xs (x ∷ ys)

  call_all-cleanups_of : (cs : List (Call F)) → call_all (cleanups_of cs) ≡ some cs
  unfolding call_all
  call_all-cleanups_of [] = refl
  call_all-cleanups_of (c ∷ cs) = rw (call_all-cleanups_of cs) refl

  abbrev with_first : Call F → List (Call F) → Cleanups F
  with_first c done = record { cleanup = cleanup_of c; next = cleanups_of done }

  register_rest :
      (c : Call F) (cs done : List (Call F))
      → register_all cs (with_first c done) ≡ some (with_first c (reverse_onto cs done))
  unfolding register_all register_cleanup
  register_rest c [] done = refl
  register_rest c (d ∷ cs) done = register_rest c cs (d ∷ done)

  -- Any number of registrations on a new iterator succeeds, and its destructor then makes each call
  -- once: the first one registered first, and then the others from the last one back.
  pub run_cleanups-register_all :
      (c : Call F) (cs : List (Call F))
      → (it : Cleanups F) × (register_all (c ∷ cs) new_cleanups ≡ some it)
        × (run_cleanups it ≡ some (c ∷ reverse_onto cs []))
  unfolding register_all register_cleanup new_cleanups run_cleanups call_all
  run_cleanups-register_all c cs = (
    with_first c (reverse_onto cs []),
    register_rest c cs [],
    rw (call_all-cleanups_of (reverse_onto cs [])) refl,
  )
