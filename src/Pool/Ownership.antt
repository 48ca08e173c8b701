-- ===== src/Pool/Ownership.antt =====
-- src/connection_pool.cc: who owns a client. `owned` lists every `unique_ptr` of a side.
use mathlib.Core.List.{Nodup-cons, mem-cons, mem-cons_of_mem, perm_append_singleton}
use mathlib.Core.List.Perm
use mathlib.Core.Logic.Or
use mathlib.Core.HLevel.{⊥_prop}
use native.Mathlib.Bridge.{le_prop}
use native.Mathlib.Nat.{le_refl, lt_irrefl}
use mariadb_serverless_engin.Base.{
  ℕ, suc, ◌+◌, ◌<◌, ◌≡◌, refl, sym, subst, ◌⊎◌, inl, inr, Bool, true, List, [], ◌∷◌, ◌++◌, Nodup,
  Perm, Mem, append_assoc, none, some, arith, length, Bool-cases, Option-cases, ==_iff, u64, ltb,
}
use mariadb_serverless_engin.Pool.{
  Ptr, Heap, Side, create_connection, adopt, get_timeout, get_finish, ptr_eq, find_erase,
  return_connection,
}

abbrev pub owned : Side → List Ptr
owned s = s.available ++ s.all

-- A client numbered below `n`, and not null.
abbrev pub IsBelow : ℕ → Ptr → Type 0
IsBelow n none = ⊥
IsBelow n (some c) = c < n

-- No client is owned twice, none is null, each has been constructed, and none has been deleted.
pub record IsOwned (s : Side) : Type 0 where
  pub distinct : Nodup (owned s)
  pub made : (p : Ptr) → Mem p (owned s) → IsBelow s.heap.next p
  pub alive : s.heap.destroyed ≡ []

IsBelow-prop : (n : ℕ) (p : Ptr) → IsProp (IsBelow n p)
IsBelow-prop n none = ⊥_prop
IsBelow-prop n (some c) = le_prop

IsBelow-suc : (n : ℕ) (p : Ptr) → IsBelow n p → IsBelow (suc n) p
IsBelow-suc n none h = h
IsBelow-suc n (some c) h = omega arith

pub ptr_eq-eq : (p q : Ptr) → ptr_eq p q ≡ true → p ≡ q
unfolding ptr_eq
ptr_eq-eq none none h = refl
ptr_eq-eq (some a) (some b) h = ground (arith, ==_iff a b)
ptr_eq-eq none (some b) h = cc
ptr_eq-eq (some a) none h = cc

-- What `find_erase` takes out is the client, and the list loses exactly that.
pub find_erase-perm :
    (client : Ptr) (ps : List Ptr) (it : Ptr) (rest : List Ptr)
    → find_erase client ps ≡ some (it, rest)
    → Perm ps (it ∷ rest)
unfolding find_erase
find_erase-perm client [] it rest e = cc
find_erase-perm client (p ∷ ps) it rest e = elim (Bool-cases (ptr_eq p client)) [
  | inl hit ↦ subst (Perm (p ∷ ps)) (ground arith) Perm.rfl
  | inr miss ↦ elim (Option-cases (find_erase client ps)) [
    | inl absent ↦ absurd (ground arith)
    | inr ((q, kept), e') ↦
        subst (Perm (p ∷ ps)) {x = q ∷ p ∷ kept} (ground arith)
          (Perm.trans (Perm.cons p (find_erase-perm client ps q kept e')) (Perm.swap q p kept))
  ]
]

-- Returning a client moves its ownership from the managed list to the queue, or changes nothing:
-- the same pointers are owned before and after, as often.
pub return_connection-perm :
    (client : Ptr) (s : Side) → Perm (owned s) (owned (return_connection client s))
unfolding return_connection
return_connection-perm none s = Perm.rfl
return_connection-perm (some c) s = elim (Option-cases (find_erase (some c) s.all)) [
  | inl absent ↦ rw (absent, return_connection) Perm.rfl
  | inr ((it, rest), e) ↦ rw (e, return_connection) (moved it rest e)
]
  where
    moved :
        (it : Ptr) (rest : List Ptr)
        → find_erase (some c) s.all ≡ some (it, rest)
        → Perm (s.available ++ s.all) ((s.available ++ it ∷ []) ++ rest)
    moved it rest e =
        rw append_assoc (Perm.append_left s.available (find_erase-perm _ s.all it rest e))

return_connection-heap : (client : Ptr) (s : Side) → (return_connection client s).heap ≡ s.heap
unfolding return_connection
return_connection-heap none s = refl
return_connection-heap (some c) s = ground arith

pub return_connection-IsOwned :
    (client : Ptr) (s : Side) → IsOwned s → IsOwned (return_connection client s)
return_connection-IsOwned client s v = record {
  distinct = Perm.nodup moved v.distinct;
  made = λ p m. rw (return_connection-heap client s) (v.made p (Perm.subset (Perm.symm moved) p m));
  alive = rw (return_connection-heap client s) v.alive;
}
  where
    moved : Perm (owned s) (owned (return_connection client s))
    moved = return_connection-perm client s

-- A side that owns one client more, the next to be constructed.
pub adopt-IsOwned :
    (s : Side)
    → IsOwned s
    → IsOwned (record s {
      heap = record (s.heap) { next = suc s.heap.next };
      all = s.all ++ some s.heap.next ∷ [];
    })
adopt-IsOwned s v = record {
  distinct =
      Perm.nodup (Perm.symm grown) (Nodup-cons.1 (λ m. lt_irrefl _ (v.made _ m), v.distinct));
  made = λ p m.
      Or.elim (IsBelow-prop (suc s.heap.next) p) (mem-cons.0 (Perm.subset grown p m))
        (λ e. subst (IsBelow (suc s.heap.next)) (sym e) (le_refl (suc s.heap.next)))
        (λ old. IsBelow-suc s.heap.next p (v.made p old));
  alive = v.alive;
}
  where
    grown : Perm (s.available ++ (s.all ++ some s.heap.next ∷ [])) (some s.heap.next ∷ owned s)
    grown = rw (← append_assoc) (perm_append_singleton (some s.heap.next) (owned s))

construct_cases :
    (constructs : ℕ → Bool) (h : Heap)
    → (create_connection constructs h ≡ (none, record h { next = suc h.next }))
      ⊎ (create_connection constructs h ≡ (some h.next, record h { next = suc h.next }))
unfolding create_connection
construct_cases constructs h = ground arith

-- A failed construction only uses up a number.
skip-IsOwned :
    (s : Side)
    → IsOwned s
    → IsOwned (record s { heap = record (s.heap) { next = suc s.heap.next } })
skip-IsOwned s v = record {
  distinct = v.distinct;
  made = λ p m. IsBelow-suc s.heap.next p (v.made p m);
  alive = v.alive;
}

pub adopt-create-IsOwned :
    (constructs : ℕ → Bool) (s : Side)
    → IsOwned s
    → IsOwned (adopt s (create_connection constructs s.heap)).1
unfolding adopt
adopt-create-IsOwned constructs s v = elim (construct_cases constructs s.heap) [
  | inl e ↦ rw e (skip-IsOwned s v)
  | inr e ↦ rw e (adopt-IsOwned s v)
]

get_timeout-IsOwned :
    (constructs : ℕ → Bool) (s : Side) → IsOwned s → IsOwned (get_timeout constructs s).1
unfolding get_timeout
get_timeout-IsOwned constructs s v = elim (Bool-cases (ltb (length s.all) s.max_connections)) [
  | inl room ↦ rw room (adopt-create-IsOwned constructs s v)
  | inr full ↦ rw full v
]

pop-IsOwned :
    (s : Side) (p : Ptr) (rest : List Ptr) (hits : ℕ)
    → s.available ≡ p ∷ rest
    → IsOwned s
    → IsOwned (record s { available = rest; cache_hits = hits })
pop-IsOwned s p rest hits e v = record {
  distinct = (Nodup-cons.0 (subst (λ q. Nodup (q ++ s.all)) e v.distinct)).1;
  made = λ q m. v.made q (rw e (mem-cons_of_mem p m));
  alive = v.alive;
}

finish_cases :
    (constructs : ℕ → Bool) (s : Side) (q : List Ptr)
    → s.available ≡ q
    → IsOwned s
    → IsOwned (get_finish constructs s).1
unfolding get_finish
finish_cases constructs s [] e v = rw (e, get_finish) (get_timeout-IsOwned constructs s v)
finish_cases constructs s (p ∷ rest) e v =
    rw (e, get_finish) (pop-IsOwned s p rest (u64 (s.cache_hits + 1)) e v)

pub get_finish-IsOwned :
    (constructs : ℕ → Bool) (s : Side) → IsOwned s → IsOwned (get_finish constructs s).1
get_finish-IsOwned constructs s v = finish_cases constructs s s.available refl v
