-- ===== src/Iterator.antt =====
-- iterator.h and iterator.cpp: the cleanup functions of an iterator and the empty iterator. A cleanup
-- function is of any type `F`, and `none` for it is NULL; the list behind `next` is a list. `none` as
-- a result is a failed `assert` or a call of NULL.
pub mod Teardown
use my_leveldb.Common.{
  ℕ, zero, suc, Bool, true, false, Option, none, some, List, [], ◌∷◌, Bytes, ◌>>=◌, ◌>>◌,
}
use my_leveldb.Status.{Status, ok_status}

pub record Cleanup (F : Type 0) : Type 0 where
  pub function : Option F
  pub arg1 : ℕ
  pub arg2 : ℕ

-- The member `cleanup_` and the list that its `next` leads to.
pub record Cleanups (F : Type 0) : Type 0 where
  pub cleanup : Cleanup F
  pub next : List (Cleanup F)

-- A call of a cleanup function.
pub record Call (F : Type 0) : Type 0 where
  pub function : F
  pub arg1 : ℕ
  pub arg2 : ℕ

module _ {F : Type 0} where
  -- The constructor.
  unfoldable pub new_cleanups : Cleanups F
  new_cleanups = record { cleanup = record { function = none; arg1 = 0; arg2 = 0 }; next = [] }

  unfoldable pub register_cleanup : Option F → (arg1 arg2 : ℕ) → Cleanups F → Option (Cleanups F)
  register_cleanup none arg1 arg2 it = none
  register_cleanup (some func) arg1 arg2 it =
      let c : Cleanup F = record { function = some func; arg1 = arg1; arg2 = arg2 } in
      elim it.cleanup.function [
        | none ↦ some (record it { cleanup = c })
        | some _ ↦ some (record it { next = c ∷ it.next })
      ]

  abbrev pub call : Cleanup F → Option (Call F)
  call c = do f ← c.function; some (record { function = f; arg1 = c.arg1; arg2 = c.arg2 })

  -- The loop of the destructor, and the destructor: the calls made, in their order.
  unfoldable pub call_all : List (Cleanup F) → Option (List (Call F))
  call_all [] = some []
  call_all (c ∷ cs) = do x ← call c; xs ← call_all cs; some (x ∷ xs)

  unfoldable pub run_cleanups : Cleanups F → Option (List (Call F))
  unfolding call_all
  run_cleanups it = elim it.cleanup.function [
    | none ↦ some []
    | some f ↦ call_all (it.cleanup ∷ it.next)
  ]

-- The virtual functions of `Iterator` over the state `S` of an implementation.
pub record Iterator (S : Type 0) : Type 0 where
  pub valid : S → Bool
  pub seek : Bytes → S → S
  pub seek_to_first : S → S
  pub seek_to_last : S → S
  pub next : S → Option S
  pub prev : S → Option S
  pub key : S → Option Bytes
  pub status : S → Status

-- `EmptyIterator`, whose state is its status.
unfoldable pub empty_iterator : Iterator Status
empty_iterator = record {
  valid = λ s. false;
  seek = λ target s. s;
  seek_to_first = λ s. s;
  seek_to_last = λ s. s;
  next = λ s. none;
  prev = λ s. none;
  key = λ s. none;
  status = λ s. s;
}

abbrev pub new_empty_iterator : Status
new_empty_iterator = ok_status

abbrev pub new_error_iterator : Status → Status
new_error_iterator status = status
