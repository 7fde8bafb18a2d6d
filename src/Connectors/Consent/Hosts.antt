-- ===== src/Connectors/Consent/Hosts.antt =====
-- apps/api/app/connectors/oauth.py: the hosts that a consent may return to.
use blank.Prelude.{ℕ, ◌≡◌, refl, ◌⊎◌, inl, inr, true, List, [], ◌∷◌, ◌++◌, arith, ap, Bool-cases}
use blank.Connectors.Consent.{before_colon, same_text, ends_with, validate_return_host}

same_text_sound : (xs ys : List ℕ) → same_text xs ys ≡ true → xs ≡ ys
unfolding same_text
same_text_sound [] [] h = refl
same_text_sound [] (y ∷ ys) h = cc
same_text_sound (x ∷ xs) [] h = cc
same_text_sound (x ∷ xs) (y ∷ ys) h = ground (arith, same_text_sound xs ys)

ends_with_sound :
    (text suffix : List ℕ)
    → ends_with text suffix ≡ true
    → (before : List ℕ) × (text ≡ before ++ suffix)
unfolding ends_with
ends_with_sound [] suffix h = ([], same_text_sound [] suffix h)
ends_with_sound (c ∷ cs) suffix h = elim (Bool-cases (same_text (c ∷ cs) suffix)) [
  | inl whole ↦ ([], same_text_sound (c ∷ cs) suffix whole)
  | inr later ↦
      let (before, e) = ends_with_sound cs suffix (ground arith) in (c ∷ before, ap (◌∷◌ c) e)
]

-- The host that a consent returns to is the apex, or, but for its port, the apex's name or some text
-- with a dot and the apex's name after it.
pub validate_return_host-InApex :
    (apex host : List ℕ)
    → let chosen = validate_return_host apex host in
      (chosen ≡ apex)
      ⊎ ((before_colon chosen ≡ before_colon apex)
          ⊎ ((before : List ℕ) × (before_colon chosen ≡ before ++ b'.' ∷ before_colon apex)))
unfolding validate_return_host
validate_return_host-InApex apex host =
    let bare = before_colon host in
    let apex_bare = before_colon apex in
    elim (Bool-cases (same_text bare apex_bare)) [
      | inl same ↦ rw same (inr (inl (same_text_sound bare apex_bare same)))
      | inr other ↦ elim (Bool-cases (ends_with bare (b'.' ∷ apex_bare))) [
        | inl sub ↦ rw (other, sub) (inr (inr (ends_with_sound bare (b'.' ∷ apex_bare) sub)))
        | inr foreign ↦ rw (other, foreign) (inl refl)
      ]
    ]
