-- ===== src/Resource/Metadata/RoundTrip.antt =====
-- What is written to an annotation is read from it.
use Prim.Native.Nat.{ℕ}
use Prim.Native.Char.{Char}
use Prim.Native.String.{String, [], ◌∷◌, ◌++◌}
use text.Mathlib.TextLemmas.{cons-append, nil-append}
use grafana_app_sdk.Base.{
  ◌≡◌, ◌≢◌, refl, sym, ap, ◌∙◌, Bool, true, false, ◌&&◌, Option, none, some, inl, inr,
  if◌then◌else◌, ◌==◌, Bool-cases, eq_refl, ==_of_ne,
}
use grafana_app_sdk.Resource.Metadata.{
  get_grafana_annotation_field, is_quote, trim_left, trim_right, trim, Annotations, Marshaled,
  marshaled, annotation_missing, decode, write_grafana_annotation, read_grafana_annotation,
}

-- A quote at the end is trimmed.
trim_right-append : (s : String) → trim_right (s ++ "\"") ≡ trim_right s
unfolding trim_right
trim_right-append [] = refl
trim_right-append (c ∷ s) =
    ap trim_right (cons-append c s "\"")
    ∙ ap (λ r. if is_quote c && r == [] then [] else c ∷ r) (trim_right-append s)

trim_left_quote : (c : Char) (s : String) → is_quote c ≡ true → trim_left (c ∷ s) ≡ trim_left s
unfolding trim_left
trim_left_quote c s h = rw h refl

trim_left_other : (c : Char) (s : String) → is_quote c ≡ false → trim_left (c ∷ s) ≡ c ∷ s
unfolding trim_left
trim_left_other c s h = rw h refl

trim-append : (s : String) → trim (s ++ "\"") ≡ trim s
unfolding trim_left trim_right
trim-append [] = refl
trim-append (c ∷ s) = elim (Bool-cases (is_quote c)) [
  | inl h ↦
      ap trim (cons-append c s "\"")
      ∙ ap trim_right (trim_left_quote c (s ++ "\"") h)
      ∙ trim-append s
      ∙ sym (ap trim_right (trim_left_quote c s h))
  | inr h ↦
      ap trim (cons-append c s "\"")
      ∙ ap trim_right (trim_left_other c (s ++ "\"") h)
      ∙ ap (λ r. if is_quote c && r == [] then [] else c ∷ r) (trim_right-append s)
      ∙ sym (ap trim_right (trim_left_other c s h))
]

-- Quotes around a text are trimmed.
trim_quoted : (s : String) → trim ("\"" ++ (s ++ "\"")) ≡ trim s
unfolding trim_left
trim_quoted s =
    ap trim (cons-append _ [] (s ++ "\"")) ∙ ap trim (nil-append (s ++ "\"")) ∙ trim-append s

module _ {V : Type 0} (marshal : V → Marshaled) (unmarshal : String → V × Option ℕ) (is_text : Bool)
    (zero_value : V) where
  -- How values of the type are marshaled: a text or a time in quotes, around a text that has no quote
  -- at its ends, and anything else without a quote at its ends.
  abbrev pub IsPlain : Bool → String → Type 0
  IsPlain true s = (body : String) × (s ≡ "\"" ++ (body ++ "\"")) × (trim body ≡ body)
  IsPlain false s = trim s ≡ s

  decoded :
      (b : Bool) (v : V) (s : String)
      → unmarshal s ≡ (v, none)
      → IsPlain b s
      → decode marshal unmarshal is_text zero_value (if b then "\"" ++ (trim s ++ "\"") else trim s)
        ≡ (v, none)
  decoded true v s u (body, e, t) =
      ap (λ x. decode marshal unmarshal is_text zero_value ("\"" ++ (x ++ "\"")))
        (ap trim e ∙ trim_quoted body ∙ t)
      ∙ ap (decode marshal unmarshal is_text zero_value) (sym e)
      ∙ rw u refl
  decoded false v s u t = ap (decode marshal unmarshal is_text zero_value) t ∙ rw u refl

  -- A value whose encoding has no quote of its own at its ends, and is decoded to the value again,
  -- is read as it was written, under each field name that leaves the same key; the annotations of
  -- other keys are as before; and after a nil was written the annotation is missing.
  pub read_grafana_annotation-write_grafana_annotation :
      (annotations : Annotations) (field field' : String) (v : V) (s : String)
      → marshal v ≡ marshaled s
      → unmarshal s ≡ (v, none)
      → IsPlain is_text s
      → get_grafana_annotation_field field' ≢ get_grafana_annotation_field field
      → let write =
          write_grafana_annotation marshal unmarshal is_text zero_value annotations field in
        let read = read_grafana_annotation marshal unmarshal is_text zero_value in
        ((write (some v)).1 ≡ none)
        × (read (write (some v)).0 field ≡ (v, none))
        × (read (write (some v)).0 field' ≡ read annotations field')
        × (read (write none).0 field ≡ (zero_value, some annotation_missing))
        × (read (write none).0 field' ≡ read annotations field')
  unfolding write_grafana_annotation read_grafana_annotation
  read_grafana_annotation-write_grafana_annotation annotations field field' v s m u plain ne =
      let key = get_grafana_annotation_field field in
      let other = ==_of_ne (get_grafana_annotation_field field') key ne in
      rw (m, write_grafana_annotation)
        (rw (eq_refl key, other, read_grafana_annotation)
          (refl, decoded is_text v s u plain, refl, refl, refl))
