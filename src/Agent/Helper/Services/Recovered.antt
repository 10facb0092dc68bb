-- ===== src/Agent/Helper/Services/Recovered.antt =====
-- agent/helper.go: the name that `startRecord` gives to the unit of a recovered process.
use mathlib.Core.List.{reverse, reverse-append, reverse-reverse}
use nodelume.Prelude.{
  ℕ, zero, suc, ◌+◌, ◌/◌, ◌%◌, ◌<◌, ◌≡◌, refl, ap, ◌∙◌, arith, Bool, true, false, not, ◌&&◌, [],
  ◌∷◌, ◌++◌, some, Bytes, text, str_eq, str_eq_refl, is_empty, ltb, if◌then◌else◌, Bool-cases, inl,
  inr,
}
use nodelume.Text.{
  to_lower, has_prefix, cut_prefix, trim_suffix, trim_prefix, trim_space, print_from, print_nat,
}
use nodelume.Version.{all_bytes}
use nodelume.Agent.Helper.Services.{
  unit_byte, service_suffix, matches_unit, is_managed_unit, dashed_from, managed_unit, safe_service,
}
use nodelume.Agent.Helper.Services.Managed.{is_managed_unit-Safe}

all_bytes-append :
    (p : ℕ → Bool) (s t : Bytes)
    → all_bytes p s ≡ true
    → all_bytes p t ≡ true
    → all_bytes p (s ++ t) ≡ true
unfolding all_bytes
all_bytes-append p [] t hs ht = ht
all_bytes-append p (c ∷ s) t hs ht = ground (arith, all_bytes-append p s t)

dashed-unit_byte : (in_run : Bool) (s : Bytes) → all_bytes unit_byte (dashed_from in_run s) ≡ true
unfolding dashed_from all_bytes
dashed-unit_byte in_run [] = refl
dashed-unit_byte in_run (c ∷ s) =
    let good = dashed-unit_byte false s in
    let bad = dashed-unit_byte true s in
    elim (Bool-cases (unit_byte c)) [
      | inl fine ↦
          ap
            (λ b. all_bytes unit_byte (
              if b
              then c ∷ dashed_from false s
              else if in_run
              then dashed_from true s
              else b'-' ∷ dashed_from true s))
            fine
          ∙ ap (λ b. if b then all_bytes unit_byte (dashed_from false s) else false) fine
          ∙ good
      | inr other ↦
          ap
            (λ b. all_bytes unit_byte (
              if b
              then c ∷ dashed_from false s
              else if in_run
              then dashed_from true s
              else b'-' ∷ dashed_from true s))
            other
          ∙ elim (Bool-cases in_run) [
            | inl inside ↦
                ap
                  (λ b.
                    all_bytes unit_byte
                      (if b then dashed_from true s else b'-' ∷ dashed_from true s))
                  inside
                ∙ bad
            | inr outside ↦
                ap
                  (λ b.
                    all_bytes unit_byte
                      (if b then dashed_from true s else b'-' ∷ dashed_from true s))
                  outside
                ∙ bad
          ]
    ]

digit-unit_byte : (d : ℕ) → d < 10 → unit_byte (b'0' + d) ≡ true
digit-unit_byte d h = ground arith

more_digits :
    (n : ℕ) (s : Bytes)
    → n < 10
    → all_bytes unit_byte s ≡ true
    → all_bytes unit_byte ((b'0' + n) ∷ s) ≡ true
unfolding all_bytes
more_digits n s small h =
    ap (λ b. if b then all_bytes unit_byte s else false) (digit-unit_byte n small) ∙ h

digits-unit_byte :
    (fuel n : ℕ) (s : Bytes)
    → all_bytes unit_byte s ≡ true
    → all_bytes unit_byte (print_from fuel n s) ≡ true
unfolding print_from
digits-unit_byte zero n s h = h
digits-unit_byte (suc fuel) n s h = elim (Bool-cases (ltb n 10)) [
  | inl small ↦
      ap
        (λ b.
          all_bytes unit_byte
            (if b then (b'0' + n) ∷ s else print_from fuel (n / 10) ((b'0' + n % 10) ∷ s)))
        small
      ∙ more_digits n s (ground arith) h
  | inr large ↦
      ap
        (λ b.
          all_bytes unit_byte
            (if b then (b'0' + n) ∷ s else print_from fuel (n / 10) ((b'0' + n % 10) ∷ s)))
        large
      ∙ digits-unit_byte fuel (n / 10) ((b'0' + n % 10) ∷ s)
          (more_digits (n % 10) s (omega arith) h)
]

cut_prefix-back : (p s : Bytes) → cut_prefix p (p ++ s) ≡ some s
unfolding cut_prefix
cut_prefix-back [] s = refl
cut_prefix-back (c ∷ p) s = ground (arith, cut_prefix-back p s)

trim_prefix-back : (p s : Bytes) → trim_prefix (p ++ s) p ≡ s
unfolding trim_prefix
trim_prefix-back p s = rw (cut_prefix-back p s, trim_prefix)

trim_suffix-back : (s p : Bytes) → trim_suffix (s ++ p) p ≡ s
unfolding trim_suffix
trim_suffix-back s p =
    ap (λ r. reverse (trim_prefix r (reverse p))) (reverse-append s p)
    ∙ ap reverse (trim_prefix-back (reverse p) (reverse s))
    ∙ reverse-reverse s

-- A name of the right characters before the suffix.
matches_unit-named :
    (name : Bytes)
    → is_empty name ≡ false
    → all_bytes unit_byte name ≡ true
    → matches_unit (name ++ service_suffix) ≡ true
unfolding matches_unit
matches_unit-named name full good =
    ap
      (λ n.
        str_eq (name ++ service_suffix) (n ++ service_suffix)
        && not (is_empty n)
        && all_bytes unit_byte n)
      (trim_suffix-back name service_suffix)
    ∙ ap (λ b. b && not (is_empty name) && all_bytes unit_byte name)
        (str_eq_refl (name ++ service_suffix))
    ∙ ap (λ b. not b && all_bytes unit_byte name) full
    ∙ good

abbrev dashed : Bytes → Bytes
dashed id = dashed_from false (trim_suffix (trim_space id) service_suffix)

abbrev middle : Bytes → ℕ → Bytes
middle id now = if is_empty (dashed id) then print_nat now else dashed id

middle-unit_byte : (id : Bytes) (now : ℕ) → all_bytes unit_byte (middle id now) ≡ true
unfolding print_nat all_bytes
middle-unit_byte id now =
    let way : Bool → Bool = λ b. all_bytes unit_byte (if b then print_nat now else dashed id) in
    elim (Bool-cases (is_empty (dashed id))) [
      | inl none_left ↦ ap way none_left ∙ digits-unit_byte 20 now [] refl
      | inr left ↦ ap way left ∙ dashed-unit_byte false (trim_suffix (trim_space id) service_suffix)
    ]

prefix-unit_byte : all_bytes unit_byte (text "nlm-managed-") ≡ true
unfolding all_bytes text
prefix-unit_byte = refl

-- Whatever its id is, the unit of a recovered process is a managed one.
pub managed_unit-Managed : (id : Bytes) (now : ℕ) → is_managed_unit (managed_unit id now) ≡ true
unfolding is_managed_unit managed_unit has_prefix cut_prefix text to_lower
managed_unit-Managed id now = matches_unit-named (text "nlm-managed-" ++ middle id now) refl (
    all_bytes-append unit_byte (text "nlm-managed-") (middle id now) prefix-unit_byte
      (middle-unit_byte id now))

-- Whatever its id is, the unit of a recovered process has a valid name and is not protected, so that
-- `startRecord` never refuses it.
pub managed_unit-Safe : (id : Bytes) (now : ℕ) → safe_service (managed_unit id now) ≡ true
managed_unit-Safe id now = is_managed_unit-Safe (managed_unit id now) (managed_unit-Managed id now)
