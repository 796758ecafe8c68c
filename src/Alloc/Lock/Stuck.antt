-- ===== src/Alloc/Lock/Stuck.antt =====
-- `prepare_handover` waits for itself.
use mathlib.Core.Option.{some-injective, none-ne-some}
use nt_rustos.Common.{
  ℕ, ◌≡◌, ◌≢◌, refl, ap, sym, ◌∙◌, ◌⊎◌, inl, inr, Bool, true, false, ◌==◌, none, some, Bool-cases,
  ==→≡, ==→≢,
}
use nt_rustos.Alloc.Lock.{
  Place, outside, waiting, inside, boxing, boxed, Harts, move, Step, call, enter, leave, set_up,
  nothing_to_hand_over, box, enter_for_box, leave_box, Steps, done, more, idle,
}

-- The places behind the lock.
abbrev pub holds : Place → Bool
holds outside = false
holds (waiting b) = false
holds (inside b) = true
holds boxing = true
holds boxed = true

-- A hart behind the lock is its holder, and none is behind the lock for the box.
pub record IsExclusive (s : Harts) : Type 0 where
  pub alone : (h : ℕ) → holds (s.place h) ≡ true → s.holder ≡ some h
  pub unboxed : (h : ℕ) → s.place h ≢ boxed

-- Where a hart stands after another, or it, has moved.
place-move :
    (k h : ℕ) (p : Place) (s : Harts)
    → (k ≡ h) × ((move h p s).place k ≡ p) ⊎ (k ≢ h) × ((move h p s).place k ≡ s.place k)
place-move k h p s = elim (Bool-cases (k == h)) [
  | inl e ↦ inl (==→≡ k h e, rw e refl)
  | inr e ↦ inr (==→≢ k h e, rw e refl)
]

-- A hart that holds nothing gives nothing away when it moves.
alone-move :
    (h : ℕ) (p : Place) (s : Harts)
    → IsExclusive s
    → (holds p ≡ true → s.holder ≡ some h)
    → (k : ℕ) → holds ((move h p s).place k) ≡ true
    → s.holder ≡ some k
alone-move h p s inv here k b = elim (place-move k h p s) [
  | inl (e, q) ↦ rw e (here (rw (← q) b))
  | inr (n, q) ↦ inv.alone k (rw (← q) b)
]

unboxed-move :
    (h : ℕ) (p : Place) (s : Harts)
    → IsExclusive s
    → p ≢ boxed
    → (k : ℕ) → (move h p s).place k ≢ boxed
unboxed-move h p s inv n k b = elim (place-move k h p s) [
  | inl (e, q) ↦ n (sym q ∙ b)
  | inr (e, q) ↦ inv.unboxed k (sym q ∙ b)
]

-- Once the holder has left, nobody is behind the lock.
alone-leave :
    (h : ℕ) (s : Harts)
    → IsExclusive s
    → holds (s.place h) ≡ true
    → (k : ℕ) → holds ((move h outside s).place k) ≡ true
    → none ≡ some k
alone-leave h s inv b k c = elim (place-move k h outside s) [
  | inl (e, q) ↦ absurd (cc)
  | inr (n, q) ↦ absurd (n (some-injective k h (sym (inv.alone k (rw (← q) c)) ∙ inv.alone h b)))
]

enter_for_box-impossible :
    (s : Harts) (h : ℕ) → IsExclusive s → s.place h ≡ boxing → s.holder ≢ none
enter_for_box-impossible s h inv e n =
    let held = inv.alone h (rw e refl) in none-ne-some h (sym n ∙ held)

Step-IsExclusive : (s t : Harts) → Step s t → IsExclusive s → IsExclusive t
Step-IsExclusive s _ (call h b e) inv = record {
  alone = alone-move h (waiting b) s inv (λ c. absurd cc);
  unboxed = unboxed-move h (waiting b) s inv (λ c. cc);
}
Step-IsExclusive s _ (enter h b e n) inv = record {
  alone = λ k c. elim (place-move k h (inside b) s) [
    | inl (q, r) ↦ rw q refl
    | inr (q, r) ↦ absurd (none-ne-some k (sym n ∙ inv.alone k (rw (← r) c)))
  ];
  unboxed = unboxed-move h (inside b) s inv (λ c. cc);
}
Step-IsExclusive s _ (leave h e) inv = record {
  alone = alone-leave h s inv (rw e refl);
  unboxed = unboxed-move h outside s inv (λ c. cc);
}
Step-IsExclusive s _ (set_up h e) inv = record { alone = inv.alone; unboxed = inv.unboxed }
Step-IsExclusive s _ (nothing_to_hand_over h e o) inv = record {
  alone = alone-leave h s inv (rw e refl);
  unboxed = unboxed-move h outside s inv (λ c. cc);
}
Step-IsExclusive s _ (box h e o) inv = record {
  alone = alone-move h boxing s inv (λ c. inv.alone h (rw e refl));
  unboxed = unboxed-move h boxing s inv (λ c. cc);
}
Step-IsExclusive s _ (enter_for_box h e n) inv = absurd (enter_for_box-impossible s h inv e n)
Step-IsExclusive s _ (leave_box h e) inv = absurd (inv.unboxed h e)

Steps-IsExclusive : (s t : Harts) → Steps s t → IsExclusive s → IsExclusive t
Steps-IsExclusive s _ (done _) inv = inv
Steps-IsExclusive s _ (more _ u t step rest) inv =
    Steps-IsExclusive u t rest (Step-IsExclusive s u step inv)

idle-IsExclusive : (on : Bool) → IsExclusive (idle on)
idle-IsExclusive on = record { alone = λ h b. absurd cc; unboxed = λ h b. cc }

-- A hart that waits for the lock of its box stays where it is when another moves.
boxing-move :
    (h g : ℕ) (p q : Place) (s : Harts)
    → s.place h ≡ boxing
    → s.place g ≡ q
    → q ≢ boxing
    → (move g p s).place h ≡ boxing
boxing-move h g p q s e f n = elim (place-move h g p s) [
  | inl (same, r) ↦ absurd (n (sym f ∙ ap s.place (sym same) ∙ e))
  | inr (other, r) ↦ r ∙ e
]

Step-boxing :
    (s t : Harts) (h : ℕ) → Step s t → IsExclusive s → s.place h ≡ boxing → t.place h ≡ boxing
Step-boxing s _ h (call g b f) inv e = boxing-move h g (waiting b) outside s e f (λ c. cc)
Step-boxing s _ h (enter g b f n) inv e = boxing-move h g (inside b) (waiting b) s e f (λ c. cc)
Step-boxing s _ h (leave g f) inv e = boxing-move h g outside (inside false) s e f (λ c. cc)
Step-boxing s _ h (set_up g f) inv e = e
Step-boxing s _ h (nothing_to_hand_over g f o) inv e =
    boxing-move h g outside (inside true) s e f (λ c. cc)
Step-boxing s _ h (box g f o) inv e = boxing-move h g boxing (inside true) s e f (λ c. cc)
Step-boxing s _ h (enter_for_box g f n) inv e = absurd (enter_for_box-impossible s g inv f n)
Step-boxing s _ h (leave_box g f) inv e = absurd (inv.unboxed g f)

Steps-boxing :
    (s t : Harts) (h : ℕ) → Steps s t → IsExclusive s → s.place h ≡ boxing → t.place h ≡ boxing
Steps-boxing s _ h (done _) inv e = e
Steps-boxing s _ h (more _ u t step rest) inv e =
    Steps-boxing u t h rest (Step-IsExclusive s u step inv) (Step-boxing s u h step inv e)

-- However the steps of the harts are interleaved from a state with no hart in a method: a hart that
-- has come to box the result of `prepare_handover` waits for the lock that it holds in every later
-- state, and no other hart is ever behind the lock again.
pub stuck_for_good :
    (on : Bool) (s t : Harts) (h k : ℕ)
    → Steps (idle on) s
    → s.place h ≡ boxing
    → Steps s t
    → k ≢ h
    → (t.place h ≡ boxing) × (t.holder ≡ some h) × (holds (t.place k) ≡ false)
stuck_for_good on s t h k before e after other =
    let sound = Steps-IsExclusive (idle on) s before (idle-IsExclusive on) in
    let later = Steps-IsExclusive s t after sound in
    let there = Steps-boxing s t h after sound e in
    let held = later.alone h (rw there refl) in
    (
      there,
      held,
      elim (Bool-cases (holds (t.place k))) [
        | inl b ↦ absurd (other (some-injective k h (sym (later.alone k b) ∙ held)))
        | inr b ↦ b
      ],
    )
