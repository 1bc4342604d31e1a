-- ===== src/Runtime/Bundle/Capabilities/Sets.antt =====
-- crates/runtime/src/bundle.rs: which capabilities a container has in the end.
use containerd_rs.Base.{
  ◌≡◌, refl, ap, is_some, unwrap_or, and_some, ◌∙◌, List, [], ◌∷◌, Bytes, Bool, true, false, not,
  ◌&&◌, ◌||◌, Option, none, some, if◌then◌else◌, str_eq, arith, Bool-cases, inl, inr,
}
use containerd_rs.Runtime.Bundle.Spec.{CapSet, Spec, Process, on_some, on_process}
use containerd_rs.Runtime.Bundle.Capabilities.{
  all_capabilities, no_caps, is_all, parse_cap, without_cap, with_cap, drop_caps, add_caps,
  apply_capabilities, bounding_of, build_caps, set_capabilities,
}

module _ (trim_upper : Bytes → Bytes) (parse : Bytes → Option Bytes) where
  abbrev pub is_cap : Option Bytes → Bytes → Bool
  is_cap none c = false
  is_cap (some cap) c = str_eq cap c

  -- Whether a list of names drops a capability: by its name or by ALL.
  unfoldable pub names_cap : CapSet → List Bytes → CapSet
  names_cap all [] c = false
  names_cap all (name ∷ names) c =
      (if is_all trim_upper parse name then all c else is_cap (parse_cap trim_upper parse name) c)
      || names_cap all names c

  without_cap_lem :
      (set : CapSet) (o : Option Bytes) (c : Bytes)
      → without_cap trim_upper parse set o c ≡ (set c && not (is_cap o c))
  without_cap_lem set none c = ground arith
  without_cap_lem set (some cap) c = ground arith

  with_cap_lem :
      (set : CapSet) (o : Option Bytes) (c : Bytes)
      → with_cap trim_upper parse set o c ≡ (is_cap o c || set c)
  with_cap_lem set none c = refl
  with_cap_lem set (some cap) c = refl

  drop_caps_lem :
      (set : CapSet) (names : List Bytes) (c : Bytes)
      → drop_caps trim_upper parse set names c ≡ (set c && not (names_cap (λ d. true) names c))
  unfolding drop_caps names_cap
  drop_caps_lem set [] c = ground arith
  drop_caps_lem set (name ∷ names) c = elim (Bool-cases (is_all trim_upper parse name)) [
    | inl e ↦ rw e (drop_caps_lem no_caps names c ∙ ground arith)
    | inr e ↦ rw e (
        drop_caps_lem (without_cap trim_upper parse set (parse_cap trim_upper parse name)) names c
        ∙ ground (arith, without_cap_lem set (parse_cap trim_upper parse name) c))
  ]

  add_caps_lem :
      (set : CapSet) (names : List Bytes) (c : Bytes)
      → add_caps trim_upper parse set names c ≡ (names_cap all_capabilities names c || set c)
  unfolding add_caps names_cap
  add_caps_lem set [] c = refl
  add_caps_lem set (name ∷ names) c = elim (Bool-cases (is_all trim_upper parse name)) [
    | inl e ↦ rw e (add_caps_lem (λ d. all_capabilities d || set d) names c ∙ ground arith)
    | inr e ↦ rw e (
        add_caps_lem (with_cap trim_upper parse set (parse_cap trim_upper parse name)) names c
        ∙ ground (arith, with_cap_lem set (parse_cap trim_upper parse name) c))
  ]

  abbrev pub final_caps : CapSet → List Bytes → List Bytes → CapSet
  final_caps set adds drops = add_caps trim_upper parse (drop_caps trim_upper parse set drops) adds

  final_caps_lem :
      (set : CapSet) (adds drops : List Bytes) (c : Bytes)
      → final_caps set adds drops c
        ≡ (names_cap all_capabilities adds c || (set c && not (names_cap (λ d. true) drops c)))
  final_caps_lem set adds drops c =
      rw (add_caps_lem (drop_caps trim_upper parse set drops) adds c, drop_caps_lem set drops c)
        refl

  -- The bounding set that is written is the one read back.
  bounding-set_capabilities :
      (caps : CapSet) (spec : Spec)
      → is_some spec.process ≡ true
      → bounding_of (on_process (set_capabilities caps caps) spec) ≡ caps
  unfolding bounding_of on_process build_caps
  bounding-set_capabilities caps spec h = in_process spec.process h
    where
      in_process :
          (m : Option Process)
          → is_some m ≡ true
          → unwrap_or no_caps (
              and_some
                (on_some (set_capabilities caps caps) m)
                (λ p. and_some p.capabilities (λ c. c.bounding)))
            ≡ caps
      in_process none h = cc
      in_process (some p) h = refl

  -- A container holds a capability in the end exactly if it is added, by name or by ALL, or if it
  -- was held before and is not dropped, by name or by ALL: an add wins over a drop, where the
  -- comment of the request's field says that the drops come last. Condition: the specification has
  -- a process.
  pub bounding-apply_capabilities :
      (adds drops : List Bytes) (spec : Spec) (c : Bytes)
      → is_some spec.process ≡ true
      → bounding_of (apply_capabilities trim_upper parse adds drops spec) c ≡ (
          names_cap all_capabilities adds c
          || (bounding_of spec c && not (names_cap (λ d. true) drops c)))
  unfolding apply_capabilities names_cap
  bounding-apply_capabilities [] [] spec c h = ground arith
  bounding-apply_capabilities [] (d ∷ ds) spec c h =
      ap (λ f. f c) (bounding-set_capabilities (final_caps (bounding_of spec) [] (d ∷ ds)) spec h)
      ∙ final_caps_lem (bounding_of spec) [] (d ∷ ds) c
  bounding-apply_capabilities (a ∷ rest) ds spec c h =
      ap (λ f. f c) (bounding-set_capabilities (final_caps (bounding_of spec) (a ∷ rest) ds) spec h)
      ∙ final_caps_lem (bounding_of spec) (a ∷ rest) ds c
