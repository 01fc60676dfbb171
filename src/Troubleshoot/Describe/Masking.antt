-- ===== src/Troubleshoot/Describe/Masking.antt =====
-- What describe shows of a secret.
use go_kubernetes_mcp_server.Base.{
  String, ◌==◌, ◌≡◌, refl, sym, ap, subst, ◌∙◌, ◌⊎◌, inl, inr, eq_iff, true, false, none, some,
  if◌then◌else◌, arith, equal_fold, ◌<>◌,
}
use go_kubernetes_mcp_server.Kube.Dynamic.{Json, Fields, string, object, end, field, at, as_string}
use go_kubernetes_mcp_server.Troubleshoot.Describe.{
  change_object, without, kind_of, short_hash, mask_value, mask_values, mask_secret,
  clean_unstructured,
}

module _ (sha256_hex : String → String) where
  -- Two values that a digest does not tell apart, or the same value.
  abbrev pub AlikeValue : Json → Json → Type 0
  AlikeValue (string t) (string u) = short_hash sha256_hex t ≡ short_hash sha256_hex u
  AlikeValue x y = x ≡ y

  abbrev pub AlikeValues : Fields → Fields → Type 0
  AlikeValues end end = Unit
  AlikeValues (field k x fs) (field j y gs) = (k ≡ j) × AlikeValue x y × AlikeValues fs gs
  AlikeValues _ _ = ⊥

  mask_value-Alike :
      (x y : Json) → AlikeValue x y → mask_value sha256_hex x ≡ mask_value sha256_hex y
  unfolding mask_value
  mask_value-Alike (string t) (string u) h = ap (λ w. string ("•••• (sha256:" <> w <> ")")) h
  mask_value-Alike x y h = ap (mask_value sha256_hex) h

  mask_values-Alike :
      (fs gs : Fields) → AlikeValues fs gs → mask_values sha256_hex fs ≡ mask_values sha256_hex gs
  unfolding mask_values
  mask_values-Alike end end h = refl
  mask_values-Alike end (field j y gs) h = elim h [ ]
  mask_values-Alike (field k x fs) end h = elim h [ ]
  mask_values-Alike (field k x fs) (field j y gs) (e, h, hs) =
      rw (e, mask_value-Alike x y h, mask_values-Alike fs gs hs) refl

  -- Two values of one key: the same, or two objects under `data` or `stringData` whose values differ
  -- only in texts that have one digest.
  abbrev pub AlikeHead : String → Json → Json → Type 0
  AlikeHead k x y =
      (x ≡ y)
      ⊎ (((k ≡ "data") ⊎ (k ≡ "stringData"))
          × ((fs : Fields) × (gs : Fields) × (x ≡ object fs) × (y ≡ object gs) × AlikeValues fs gs))

  -- Two objects that differ in nothing else.
  abbrev pub Alike : Fields → Fields → Type 0
  Alike end end = Unit
  Alike (field k x fs) (field j y gs) = (k ≡ j) × AlikeHead k x y × Alike fs gs
  Alike _ _ = ⊥

  -- What `cleanUnstructured` does to a value of a secret and to all of them.
  changed : String → (Fields → Fields) → String → Json → Json
  changed key f k x =
      if k == key then elim x [ object inner ↦ object (f inner) | other ↦ other ] else x

  cleaned_value : String → Json → Json
  unfolding changed
  cleaned_value k x =
      changed "stringData" (mask_values sha256_hex) k (
        changed "data" (mask_values sha256_hex) k
          (changed "metadata" (without "managedFields") k x))

  cleaned : Fields → Fields
  cleaned fs = change_object "stringData" (mask_values sha256_hex) (
      change_object "data" (mask_values sha256_hex)
        (change_object "metadata" (without "managedFields") fs))

  cleaned-field :
      (k : String) (x : Json) (fs : Fields)
      → cleaned (field k x fs) ≡ field k (cleaned_value k x) (cleaned fs)
  unfolding cleaned cleaned_value changed change_object
  cleaned-field k x fs = refl

  cleaned_object-Alike :
      (k : String) (fs gs : Fields)
      → (k ≡ "data") ⊎ (k ≡ "stringData")
      → AlikeValues fs gs
      → cleaned_value k (object fs) ≡ cleaned_value k (object gs)
  unfolding cleaned_value changed
  cleaned_object-Alike k fs gs (inl e) h =
      subst (λ j. cleaned_value j (object fs) ≡ cleaned_value j (object gs)) (sym e)
        (ap object (mask_values-Alike fs gs h))
  cleaned_object-Alike k fs gs (inr e) h =
      subst (λ j. cleaned_value j (object fs) ≡ cleaned_value j (object gs)) (sym e)
        (ap object (mask_values-Alike fs gs h))

  cleaned_value-Alike :
      (k : String) (x y : Json) → AlikeHead k x y → cleaned_value k x ≡ cleaned_value k y
  cleaned_value-Alike k x y (inl e) = ap (cleaned_value k) e
  cleaned_value-Alike k x y (inr (w, (fs, gs, e, f, h))) =
      rw (e, f) (cleaned_object-Alike k fs gs w h)

  cleaned-Alike : (fs gs : Fields) → Alike fs gs → cleaned fs ≡ cleaned gs
  cleaned-Alike end end h = refl
  cleaned-Alike end (field j y gs) h = elim h [ ]
  cleaned-Alike (field k x fs) end h = elim h [ ]
  cleaned-Alike (field k x fs) (field j y gs) (e, h, hs) =
      rw
        (
          cleaned-field k x fs,
          cleaned-field j y gs,
          sym e,
          cleaned_value-Alike k x y h,
          cleaned-Alike fs gs hs,
        )
        refl

  -- A key that is not changed reads as before.
  at-change_object :
      (read key : String) (f : Fields → Fields) (fs : Fields)
      → (read == key) ≡ false
      → at read (change_object key f fs) ≡ at read fs
  unfolding at change_object
  at-change_object read key f end h = refl
  at-change_object read key f (field k x fs) h =
      ground (arith, at-change_object read key f fs, eq_iff k read, eq_iff k key, eq_iff read key)

  ne_kind : (k : String) → (k ≡ "data") ⊎ (k ≡ "stringData") → (k == "kind") ≡ false
  ne_kind k (inl e) = rw e refl
  ne_kind k (inr e) = rw e refl

  at_kind-Alike : (fs gs : Fields) → Alike fs gs → at "kind" fs ≡ at "kind" gs
  unfolding at
  at_kind-Alike end end h = refl
  at_kind-Alike end (field j y gs) h = elim h [ ]
  at_kind-Alike (field k x fs) end h = elim h [ ]
  at_kind-Alike (field k x fs) (field j y gs) (e, inl f, hs) =
      rw (sym e, f, at_kind-Alike fs gs hs) refl
  at_kind-Alike (field k x fs) (field j y gs) (e, inr (w, alike), hs) =
      rw (sym e, ne_kind k w) (at_kind-Alike fs gs hs)

  text_of : Json → String
  text_of x = elim (as_string x) [ none ↦ "" | some kind ↦ kind ]

  kind_of-Alike : (fs gs : Fields) → Alike fs gs → kind_of fs ≡ kind_of gs
  unfolding kind_of text_of
  kind_of-Alike fs gs h = ap text_of (at_kind-Alike fs gs h)

  metadata_kept :
      (fs : Fields) → kind_of (change_object "metadata" (without "managedFields") fs) ≡ kind_of fs
  unfolding kind_of text_of
  metadata_kept fs =
      ap text_of (at-change_object "kind" "metadata" (without "managedFields") fs refl)

  clean-cleaned :
      (fs : Fields)
      → equal_fold (kind_of fs) "Secret" ≡ true
      → clean_unstructured sha256_hex fs ≡ cleaned fs
  unfolding clean_unstructured mask_secret cleaned
  clean-cleaned fs h = rw (metadata_kept fs, h) refl

  -- What describe shows of a secret is the same for two secrets that differ only in texts under `data`
  -- and `stringData`, as long as each text and its counterpart have one digest of twelve digits.
  pub clean_unstructured-masked :
      (fs gs : Fields)
      → equal_fold (kind_of fs) "Secret" ≡ true
      → Alike fs gs
      → clean_unstructured sha256_hex fs ≡ clean_unstructured sha256_hex gs
  clean_unstructured-masked fs gs h alike =
      clean-cleaned fs h
      ∙ cleaned-Alike fs gs alike
      ∙ sym (
          clean-cleaned gs
            (subst (λ x. equal_fold x "Secret" ≡ true) (kind_of-Alike fs gs alike) h))
