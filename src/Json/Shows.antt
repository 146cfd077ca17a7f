-- ===== src/Json/Shows.antt =====
-- Texts written in pieces are texts of values: a lemma for each way to put pieces together.
use cpp_gram.Common.{
  ℕ, suc, ◌≡◌, refl, ap, ◌∙◌, sym, subst, Bool, true, false, not, List, [], ◌∷◌, ◌++◌, append_assoc,
  ltb, if◌then◌else◌, All, arith,
}
use cpp_gram.Common.Text.{codes}
use cpp_gram.Json.{escape_json_string}
use cpp_gram.Json.Value.{
  Json, Items, Fields, text, number, yes_no, array, object, no_items, item, no_fields, field,
  render, render_items, render_fields, comma,
}
use mathlib.Core.List.{cons≢nil}
use cpp_gram.Json.Parser.{is_digit}
use cpp_gram.Json.Grammar.{IsJson, AreItems, AreFields}
use cpp_gram.Json.Pieces.{when, in_quotes, unescaped, separated}

-- `s` is the text of `x`.
pub record Shows (x : Json) (s : List ℕ) : Type 0 where
  pub shown : IsJson x
  pub rendered : (rest : List ℕ) → render x rest ≡ s ++ rest

-- `s` is the text of the members behind the first, with the closing brace.
pub record Writes (fs : Fields) (s : List ℕ) : Type 0 where
  pub shown : AreFields fs
  pub rendered : (rest : List ℕ) → render_fields false fs rest ≡ s ++ rest

-- A string that is its own escaped form.
abbrev pub IsPlain : List ℕ → Type 0
IsPlain k = escape_json_string k ≡ k

pub text-Shows : (t : List ℕ) → Shows (text t) (in_quotes t)
unfolding render
text-Shows t = record {
  shown = tt;
  rendered =
      λ rest. ap (λ z. b'"' ∷ z) (sym (append_assoc (escape_json_string t) (b'"' ∷ []) rest));
}

pub unescaped-Shows : (t : List ℕ) → IsPlain t → Shows (text t) (unescaped t)
unescaped-Shows t h = subst (λ z. Shows (text t) (b'"' ∷ (z ++ b'"' ∷ []))) h (text-Shows t)

pub end-Writes : Writes no_fields (codes "}")
unfolding render
end-Writes = record { shown = tt; rendered = λ rest. refl }

-- What a member is, up to its value.
abbrev key : List ℕ → List ℕ → List ℕ
key k s = b'"' ∷ (k ++ (b'"' ∷ b':' ∷ s))

key-append : (k s t rest : List ℕ) → key k (s ++ (t ++ rest)) ≡ key k (s ++ t) ++ rest
key-append k s t rest =
    ap (λ z. b'"' ∷ z)
      (ap (λ z. k ++ (b'"' ∷ b':' ∷ z)) (sym (append_assoc s t rest))
        ∙ sym (append_assoc k (b'"' ∷ b':' ∷ (s ++ t)) rest))

member_lem :
    {x : Json} {fs : Fields} {s t : List ℕ} (k rest : List ℕ)
    → IsPlain k
    → Shows x s
    → Writes fs t
    → key (escape_json_string k) (render x (render_fields false fs rest)) ≡ key k (s ++ t) ++ rest
member_lem {s = s} {t = t} k rest h v w = rw (h, w.rendered, v.rendered) (key-append k s t rest)

pub object-Shows :
    {x : Json} {fs : Fields} {s t : List ℕ} (k : List ℕ)
    → IsPlain k
    → Shows x s
    → Writes fs t
    → Shows (object (field k x fs)) (b'{' ∷ key k (s ++ t))
unfolding render
object-Shows k h v w = record {
  shown = (v.shown, w.shown);
  rendered = λ rest. ap (λ z. b'{' ∷ z) (member_lem k rest h v w);
}

pub field-Writes :
    {x : Json} {fs : Fields} {s t : List ℕ} (k : List ℕ)
    → IsPlain k
    → Shows x s
    → Writes fs t
    → Writes (field k x fs) (b',' ∷ key k (s ++ t))
unfolding render
field-Writes k h v w = record {
  shown = (v.shown, w.shown);
  rendered = λ rest. ap (λ z. b',' ∷ z) (member_lem k rest h v w);
}

-- A member that is there under a condition.
abbrev pub field_if : Bool → List ℕ → Json → Fields → Fields
field_if b k x fs = if b then field k x fs else fs

pub field_if-Writes :
    {x : Json} {fs : Fields} {s t : List ℕ} (b : Bool) (k : List ℕ)
    → IsPlain k
    → Shows x s
    → Writes fs t
    → Writes (field_if b k x fs) (when b (b',' ∷ key k s) ++ t)
field_if-Writes {x = x} {fs = fs} {s = s} {t = t} true k h v w =
    subst (λ z. Writes (field k x fs) (b',' ∷ b'"' ∷ z)) (sym (append_assoc k (b'"' ∷ b':' ∷ s) t))
      (field-Writes k h v w)
field_if-Writes false k h v w = w

pub digit-Shows : (d : ℕ) → is_digit d ≡ true → Shows (number (d ∷ [])) (d ∷ [])
unfolding render
digit-Shows d h = record { shown = ((λ e. cons≢nil e), (h, tt)); rendered = λ rest. refl }

pub true-Shows : Shows (yes_no true) (codes "true")
unfolding render
true-Shows = record { shown = tt; rendered = λ rest. refl }

-- The elements of an array.
abbrev pub items_of : {A : Type 0} → (A → Json) → List A → Items
items_of d [] = no_items
items_of d (x ∷ xs) = item (d x) (items_of d xs)

item_lem :
    (b : Bool) (x : Json) (s : List ℕ) (xs : Items) (t u rest : List ℕ)
    → Shows x s
    → render_items false xs rest ≡ t ++ u
    → comma (not b) (render x (render_items false xs rest)) ≡ (when b (b',' ∷ []) ++ (s ++ t)) ++ u
item_lem true x s xs t u rest v h = rw (h, v.rendered, append_assoc s t u) refl
item_lem false x s xs t u rest v h = rw (h, v.rendered, append_assoc s t u) refl

later : (r : ℕ) → ltb 0 (suc r) ≡ true
later r = ground arith

items_lem :
    {A : Type 0} (d : A → Json) (f : A → List ℕ) (r : ℕ) (xs : List A)
    → All (λ x. Shows (d x) (f x)) xs
    → AreItems (items_of d xs)
      × ((rest : List ℕ)
          → render_items (not (ltb 0 r)) (items_of d xs) rest ≡ separated f r xs ++ (b']' ∷ rest))
unfolding render separated
items_lem d f r [] h = (tt, λ rest. refl)
items_lem d f r (x ∷ xs) (v, h) =
    let (a, more) = items_lem d f (suc r) xs h in
    (
      (v.shown, a),
      λ rest.
          item_lem (ltb 0 r) (d x) (f x) (items_of d xs) (separated f (suc r) xs) (b']' ∷ rest) rest
            v
            (subst
              (λ b.
                render_items (not b) (items_of d xs) rest ≡ separated f (suc r) xs ++ (b']' ∷ rest))
              (later r) (more rest)),
    )

pub array-Shows :
    {A : Type 0} (d : A → Json) (f : A → List ℕ) (xs : List A)
    → All (λ x. Shows (d x) (f x)) xs
    → Shows (array (items_of d xs)) (b'[' ∷ (separated f 0 xs ++ (b']' ∷ [])))
unfolding render
array-Shows d f xs h =
    let (a, e) = items_lem d f 0 xs h in
    record {
      shown = a;
      rendered = λ rest.
          ap (λ z. b'[' ∷ z) (e rest ∙ sym (append_assoc (separated f 0 xs) (b']' ∷ []) rest));
    }

pub All-each : {A : Type 0} {P : A → Type 0} → ((x : A) → P x) → (xs : List A) → All P xs
All-each f [] = tt
All-each f (x ∷ xs) = (f x, All-each f xs)
