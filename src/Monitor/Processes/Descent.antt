-- ===== src/Monitor/Processes/Descent.antt =====
-- The loop of `descendant_pids` ends, and with the processes below the root.
use ker_sor_monitor.Prelude.{
  ℕ, zero, suc, ◌+◌, ◌≤◌, ◌≡◌, refl, Bool, true, false, not, ◌||◌, some, List, [], ◌∷◌, length,
  arith, count_if, Bool-cases, inl, inr, ◌↔◌, sym,
}
use mathlib.Core.Path.{subst}
use ker_sor_monitor.Prelude.Int.{ℤ, int_beq, int_beq_refl, eq-of_int_beq, int_beq_comm}
use ker_sor_monitor.Monitor.Processes.{
  Process, elem, children, extend, visit, descend, descendant_pids, Descends, itself, child,
}

length-extend : (ps stack : List ℤ) → length (extend ps stack) ≡ length ps + length stack
length-extend [] stack = omega arith
length-extend (p ∷ ps) stack = omega (arith, length-extend ps (p ∷ stack))

elem-extend : (q : ℤ) (ps stack : List ℤ) → elem q (extend ps stack) ≡ (elem q ps || elem q stack)
elem-extend q [] stack = refl
elem-extend q (p ∷ ps) stack = ground (arith, elem-extend q ps (p ∷ stack))

module _ (processes : List Process) where
  -- The processes whose parent has not been seen.
  abbrev unseen : List ℤ → ℕ
  unseen seen = count_if (λ q. not (elem q.ppid seen)) processes

  unseen_visit :
      (p : ℤ) (seen : List ℤ)
      → elem p seen ≡ false
      → unseen (p ∷ seen) + length (children processes p) ≡ unseen seen
  unseen_visit p seen h = by processes
    where
      by :
          (qs : List Process)
          → count_if (λ q. not (elem q.ppid (p ∷ seen))) qs + length (children qs p)
            ≡ count_if (λ q. not (elem q.ppid seen)) qs
      by [] = omega arith
      by (q ∷ qs) = elim (Bool-cases (int_beq q.ppid p)) [
        | inl e ↦
            let same : q.ppid ≡ p = eq-of_int_beq q.ppid p e in
            rw (e, same, h, int_beq_refl p) (omega (arith, by qs))
        | inr e ↦ rw (e, int_beq_comm p q.ppid, e) (omega (arith, by qs))
      ]

  measure : List ℤ × List ℤ → ℕ
  measure (stack, seen) = length stack + unseen seen

  -- A round of the loop takes one pid from the stack or marks the children of a new one.
  measure-visit :
      (p : ℤ) (stack seen : List ℤ)
      → suc (measure (visit processes p (stack, seen))) ≤ measure (p ∷ stack, seen)
  unfolding measure
  measure-visit p stack seen = elim (Bool-cases (elem p seen)) [
    | inl e ↦ rw e (omega arith)
    | inr e ↦
        rw e (omega (arith, length-extend (children processes p) stack, unseen_visit p seen e))
  ]

  descend_ends :
      (n : ℕ) (s : List ℤ × List ℤ)
      → measure s ≤ n
      → (out : List ℤ) × (descend processes n s ≡ some out)
  unfolding descend
  descend_ends n ([], seen) h = (seen, refl)
  descend_ends zero (p ∷ stack, seen) h = absurd (unfold measure in omega (arith, h))
  descend_ends (suc n) (p ∷ stack, seen) h =
      descend_ends n (visit processes p (stack, seen))
        (omega (arith, measure-visit p stack seen, h))

  all_unseen : (qs : List Process) → count_if (λ q. not (elem q.ppid [])) qs ≡ length qs
  all_unseen [] = refl
  all_unseen (q ∷ qs) = omega (arith, all_unseen qs)

  -- What every round of the loop keeps holds of the result.
  descend_keeps :
      (P : List ℤ × List ℤ → Type 0)
      → ((p : ℤ) (stack seen : List ℤ) → P (p ∷ stack, seen) → P (visit processes p (stack, seen)))
      → (n : ℕ) (s : List ℤ × List ℤ) (out : List ℤ) → P s
      → descend processes n s ≡ some out
      → P ([], out)
  unfolding descend
  descend_keeps P step n ([], seen) out h e =
      let same : seen ≡ out = cc in subst (λ x. P ([], x)) same h
  descend_keeps P step zero (p ∷ stack, seen) out h e = cc
  descend_keeps P step (suc n) (p ∷ stack, seen) out h e =
      descend_keeps P step n (visit processes p (stack, seen)) out (step p stack seen h) e

  abbrev Pending : ℤ → List ℤ × List ℤ → Type 0
  Pending q (stack, seen) = (elem q seen || elem q stack) ≡ true

  -- The stack and the set hold processes below the root only, and the children of every process in the set.
  record Sound (root : ℤ) (s : List ℤ × List ℤ) : Type 0 where
    below : (q : ℤ) → Pending q s → Descends processes root q
    closed : (p q : ℤ) → elem p s.1 ≡ true → elem q (children processes p) ≡ true → Pending q s
    rooted : Pending root s

  elem-eq : (p q : ℤ) (seen : List ℤ) → elem p seen ≡ true → int_beq p q ≡ true → elem q seen ≡ true
  elem-eq p q seen h e = subst (λ x. elem x seen ≡ true) (eq-of_int_beq p q e) h

  skipped :
      (p q : ℤ) (stack seen : List ℤ)
      → elem p seen ≡ true
      → Pending q (p ∷ stack, seen)
      → Pending q (stack, seen)
  skipped p q stack seen e h = elim (Bool-cases (int_beq p q)) [
    | inl same ↦ rw (elem-eq p q seen e same) refl
    | inr other ↦ rw other at h
  ]

  visited :
      (p q : ℤ) (stack seen : List ℤ)
      → Pending q (p ∷ stack, seen)
      → Pending q (extend (children processes p) stack, p ∷ seen)
  visited p q stack seen h = ground (arith, h, elem-extend q (children processes p) stack)

  visit-Sound :
      (root p : ℤ) (stack seen : List ℤ)
      → Sound root (p ∷ stack, seen)
      → Sound root (visit processes p (stack, seen))
  visit-Sound root p stack seen h = elim (Bool-cases (elem p seen)) [
    | inl e ↦ rw e (record {
      below = λ q at. h.below q (weaker q at);
      closed = λ p' q here there. skipped p q stack seen e (h.closed p' q here there);
      rooted = skipped p root stack seen e h.rooted;
    })
    | inr e ↦ rw e (record {
      below = λ q at. below q at (elem q (children processes p)) refl;
      closed = λ p' q here there. closed p' q here there (int_beq p p') refl;
      rooted = visited p root stack seen h.rooted;
    })
  ]
    where
      weaker : (q : ℤ) → Pending q (stack, seen) → Pending q (p ∷ stack, seen)
      weaker q at = ground (arith, at)

      below :
          (q : ℤ)
          → Pending q (extend (children processes p) stack, p ∷ seen)
          → (b : Bool) → elem q (children processes p) ≡ b
          → Descends processes root q
      below q at true c = child c (h.below p (ground (arith, int_beq_refl p)))
      below q at false c =
          h.below q (ground (arith, at, elem-extend q (children processes p) stack, c))

      closed :
          (p' q : ℤ)
          → elem p' (p ∷ seen) ≡ true
          → elem q (children processes p') ≡ true
          → (b : Bool) → int_beq p p' ≡ b
          → Pending q (extend (children processes p) stack, p ∷ seen)
      closed p' q here there true same =
          let same_children : elem q (children processes p) ≡ true =
            subst (λ x. elem q (children processes x) ≡ true) (sym (eq-of_int_beq p p' same))
              there in
          ground (arith, same_children, elem-extend q (children processes p) stack)
      closed p' q here there false other =
          visited p q stack seen (h.closed p' q (ground (arith, here, other)) there)

  start-Sound : (root : ℤ) → Sound root (root ∷ [], [])
  start-Sound root = record {
    below =
        λ q at. subst (Descends processes root) (eq-of_int_beq root q (ground (arith, at))) itself;
    closed = λ p q here there. cc;
    rooted = ground (arith, int_beq_refl root);
  }

  found :
      (root : ℤ) (out : List ℤ)
      → Sound root ([], out)
      → (q : ℤ) → Descends processes root q
      → elem q out ≡ true
  found root out h q itself = ground (arith, h.rooted)
  found root out h q (child {p} c below) = ground (arith, h.closed p q (found root out h p below) c)

  -- The loop ends after at most one round more than there are processes, and the set it leaves holds
  -- the root, the processes below it, and nothing else, whatever the table says (it may have cycles).
  pub descendant_pids_exact :
      (root : ℤ)
      → (out : List ℤ) × (descendant_pids (some root) processes ≡ some out)
        × ((q : ℤ) → (elem q out ≡ true) ↔ Descends processes root q)
  unfolding descendant_pids measure
  descendant_pids_exact root =
      let (out, e) =
        descend_ends (length processes + 1) (root ∷ [], []) (omega (arith, all_unseen processes)) in
      let sound =
        descend_keeps (Sound root) (visit-Sound root) (length processes + 1) (root ∷ [], []) out
          (start-Sound root) e in
      (out, e, λ q. (λ h. sound.below q (ground (arith, h)), found root out sound q))
