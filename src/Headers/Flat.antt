-- ===== src/Headers/Flat.antt =====
-- What becomes of a header on its way through the replay functions.
use vexlo.Common.{
  ◌≡◌, ◌≢◌, refl, sym, ap, ◌∙◌, subst, Bytes, Bool, true, false, [], ◌∷◌, Option, none, some, arith,
  str_eq, str_eq_iff, str_eq_refl, if◌then◌else◌, Map, get, put, get-put, Unique, map_some,
  Bool-cases, inl, inr,
}
use vexlo.Headers.{Headers, join_values, flatten_headers, set_headers}

-- The flat text of a header is the join of its values.
pub flatten_headers-get :
    (key : Bytes) (headers : Headers)
    → get key (flatten_headers headers) ≡ map_some join_values (get key headers)
unfolding flatten_headers get
flatten_headers-get key [] = refl
flatten_headers-get key ((k, values) ∷ rest) =
    ground (arith, flatten_headers-get key rest, str_eq_iff k key)

get-here :
    {A : Type 0} (key : Bytes) (value : A) (rest : Map A)
    → get key ((key, value) ∷ rest) ≡ some value
unfolding get
get-here key value rest = rw (str_eq_refl key)

get-there :
    {A : Type 0} (k key : Bytes) (value : A) (rest : Map A)
    → str_eq k key ≡ false
    → get key ((k, value) ∷ rest) ≡ get key rest
unfolding get
get-there k key value rest e = rw e

distinct_options : {A : Type 0} (o : Option A) (a : A) → o ≡ none → o ≡ some a → ⊥
distinct_options o a e f = absurd (other_way (sym f ∙ e))
  where
    other_way : some a ≡ none → ⊥
    other_way e = ground arith

-- A header that no key of the flat map is spelled as stays as it was.
set_headers-get_other :
    (canonical : Bytes → Bytes) (name : Bytes) (flat : Map Bytes) (headers : Headers)
    → ((key : Bytes) → canonical key ≡ name → get key flat ≡ none)
    → get name (set_headers canonical flat headers) ≡ get name headers
unfolding set_headers
set_headers-get_other canonical name [] headers free = refl
set_headers-get_other canonical name ((key, value) ∷ rest) headers free =
    elim (Bool-cases (str_eq (canonical key) name)) [
      | inl e ↦ absurd (
          distinct_options (get key ((key, value) ∷ rest)) value
            (free key ((str_eq_iff (canonical key) name).0 e)) (get-here key value rest))
      | inr e ↦
          set_headers-get_other canonical name rest (put (canonical key) (value ∷ []) headers)
            (λ other same. later other (str_eq key other) refl (free other same))
          ∙ get-put (canonical key) name (value ∷ []) headers
          ∙ ap (λ (b : Bool). if b then some (value ∷ []) else get name headers) e
    ]
  where
    later :
        (other : Bytes) (b : Bool)
        → str_eq key other ≡ b
        → get other ((key, value) ∷ rest) ≡ none
        → get other rest ≡ none
    later other true same h = absurd (
        distinct_options (get key ((key, value) ∷ rest)) value
          (subst (λ (k : Bytes). get k ((key, value) ∷ rest) ≡ none)
            (sym ((str_eq_iff key other).0 same)) h)
          (get-here key value rest))
    later other false differs h = sym (get-there key other value rest differs) ∙ h

distinct_bools : true ≡ false → ⊥
distinct_bools h = ground arith

-- A flat map gives each of its keys, in its canonical spelling, the one value that the map has for
-- it, if no other key of the map has the same canonical spelling.
pub set_headers-get :
    (canonical : Bytes → Bytes) (key value : Bytes) (flat : Map Bytes) (headers : Headers)
    → Unique flat
    → get key flat ≡ some value
    → ((other : Bytes) → canonical other ≡ canonical key → other ≢ key → get other flat ≡ none)
    → get (canonical key) (set_headers canonical flat headers) ≡ some (value ∷ [])
unfolding set_headers
set_headers-get canonical key value [] headers u e alone =
    absurd (distinct_options (get key []) value (unfold get in refl) e)
set_headers-get canonical key value ((k, v) ∷ rest) headers u e alone =
    elim (Bool-cases (str_eq k key)) [
      | inl same ↦
          let here : k ≡ key = (str_eq_iff k key).0 same in
          set_headers-get_other canonical (canonical key) rest (put (canonical k) (v ∷ []) headers)
            (λ other spelled. gone other here spelled (str_eq k other) refl)
          ∙ get-put (canonical k) (canonical key) (v ∷ []) headers
          ∙ ap (λ (b : Bool). if b then some (v ∷ []) else get (canonical key) headers)
              (str_eq_canonical here)
          ∙ ap (λ (w : Bytes). some (w ∷ [])) (value_here here)
      | inr differs ↦
          set_headers-get canonical key value rest (put (canonical k) (v ∷ []) headers) u.1
            (sym (get-there k key v rest differs) ∙ e)
            (λ other spelled apart. below other (str_eq k other) refl spelled apart)
    ]
  where
    str_eq_canonical : k ≡ key → str_eq (canonical k) (canonical key) ≡ true
    str_eq_canonical here = (str_eq_iff (canonical k) (canonical key)).1 (ap canonical here)

    value_here : k ≡ key → v ≡ value
    value_here here =
        let both : some v ≡ some value =
          sym (get-here k v rest) ∙ ap (λ (j : Bytes). get j ((k, v) ∷ rest)) here ∙ e in
        cc

    gone :
        (other : Bytes)
        → k ≡ key
        → canonical other ≡ canonical key
        → (b : Bool) → str_eq k other ≡ b
        → get other rest ≡ none
    gone other here spelled true same =
        subst (λ (j : Bytes). get j rest ≡ none) ((str_eq_iff k other).0 same) u.0
    gone other here spelled false differs =
        sym (get-there k other v rest differs)
        ∙ alone other spelled
            (λ same. distinct_bools (sym ((str_eq_iff k other).1 (here ∙ sym same)) ∙ differs))

    below :
        (other : Bytes) (b : Bool)
        → str_eq k other ≡ b
        → canonical other ≡ canonical key
        → other ≢ key
        → get other rest ≡ none
    below other true same spelled apart =
        subst (λ (j : Bytes). get j rest ≡ none) ((str_eq_iff k other).0 same) u.0
    below other false differs spelled apart =
        sym (get-there k other v rest differs) ∙ alone other spelled apart
