-- ===== src/Tax/Gst/Place.antt =====
-- When a supply counts as inter-state.
use meet_millions_finance.Prelude.{
  if◌then◌else◌, Bool-cases, nat_eq, ◌≡◌, refl, ◌≢◌, ◌↔◌, inl, inr, Bool, true, false, not, ◌||◌,
  Option, none, some, [], ◌∷◌, arith,
}
use meet_millions_finance.Tax.Gst.{
  SupplyType, exempt, nil, non_gst, rcm, Code, code_eq, is_blank, codes_differ, pad_start,
  is_inter_state,
}

-- The supply types whose place is not settled by the type itself.
abbrev pub is_open : SupplyType → Bool
is_open exempt = true
is_open nil = true
is_open non_gst = true
is_open rcm = true
is_open _ = false

pub code_eq_sound : (s t : Code) → code_eq s t ≡ true → s ≡ t
code_eq_sound [] [] h = refl
code_eq_sound [] (b ∷ t) h = cc
code_eq_sound (a ∷ s) [] h = cc
code_eq_sound (a ∷ s) (b ∷ t) h = ground (arith, code_eq_sound s t)

pub code_eq_refl : (s : Code) → code_eq s s ≡ true
code_eq_refl [] = refl
code_eq_refl (a ∷ s) = ground (arith, code_eq_refl s)

-- Both codes are given, none is empty, and they are not the same two digits.
abbrev pub PlacesDiffer : Option Code → Option Code → Type 0
PlacesDiffer (some (c ∷ s)) (some (d ∷ p)) = pad_start 2 b'0' (c ∷ s) ≢ pad_start 2 b'0' (d ∷ p)
PlacesDiffer _ _ = ⊥

differ_iff : (s p : Code) → (not (code_eq s p) ≡ true) ↔ (s ≢ p)
differ_iff s p = elim (Bool-cases (code_eq s p)) [
  | inl same ↦ ((λ e. cc), λ ne. absurd (ne (code_eq_sound s p same)))
  | inr other ↦
      ((λ e eq. let q : code_eq s p ≡ true = rw (← eq) (code_eq_refl s) in cc), λ ne. rw other)
]

places_iff :
    (s p : Option Code)
    → ((if is_blank s || is_blank p then false else codes_differ s p) ≡ true) ↔ PlacesDiffer s p
places_iff (some (c ∷ s)) (some (d ∷ p)) = differ_iff _ _
places_iff none p = ((λ e. cc), (λ h. elim h [ ]))
places_iff (some []) p = ((λ e. cc), (λ h. elim h [ ]))
places_iff (some (c ∷ s)) none = ((λ e. cc), (λ h. elim h [ ]))
places_iff (some (c ∷ s)) (some []) = ((λ e. cc), (λ h. elim h [ ]))

open_place_test :
    (s p : Option Code) (supply : SupplyType)
    → is_open supply ≡ true
    → is_inter_state s p supply ≡ (if is_blank s || is_blank p then false else codes_differ s p)
unfolding is_inter_state
open_place_test s p supply h = ground arith

-- For an exempt, nil-rated, non-GST or reverse-charge supply, it is inter-state exactly when both
-- codes are present and differ after padding to two digits.
open_place_lem :
    (supplier place : Option Code) (supply : SupplyType)
    → is_open supply ≡ true
    → (is_inter_state supplier place supply ≡ true) ↔ PlacesDiffer supplier place
unfolding is_inter_state
open_place_lem supplier place supply h =
    rw (open_place_test supplier place supply h) (places_iff supplier place)

-- For a supply recorded as intra-state, inter-state, export or SEZ, whether it is inter-state does
-- not depend on the two state codes.
recorded_place_wins :
    (supplier place supplier' place' : Option Code) (supply : SupplyType)
    → is_open supply ≡ false
    → is_inter_state supplier place supply ≡ is_inter_state supplier' place' supply
unfolding is_inter_state
recorded_place_wins s p s' p' supply h = ground arith
