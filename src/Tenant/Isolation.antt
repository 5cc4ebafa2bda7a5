-- ===== src/Tenant/Isolation.antt =====
-- Whose topics are whose (core/tenant/validator.go).
use Prim.Native.String.append
use Prim.Native.Char.{Char, code}
use text.Mathlib.TextBridge.{IsPrefix}
use text.Mathlib.TextEquality.{starts_with_iff}
use muto.Prelude.{
  String, ◌<>◌, ◌≡◌, ◌≢◌, ◌↔◌, refl, sym, ap, ◌∙◌, none, arith, Bool, true, false, eqb, ◌||◌, ◌⊎◌,
  inl, inr,
}
use muto.Prelude.Text.{tail_text, append_assoc, append_cancel_left}
use muto.Tenant.{topic_prefix, validate_topic}

-- A topic is accepted exactly when it is the tenant's prefix and something after it.
validate_topic_iff :
    (tenant topic : String)
    → (validate_topic tenant topic ≡ none) ↔ IsPrefix (topic_prefix tenant) topic
unfolding validate_topic
validate_topic_iff tenant topic = (
  λ h. (starts_with_iff topic (topic_prefix tenant)).0 (ground arith),
  λ p. ground (arith, (starts_with_iff topic (topic_prefix tenant)).1 p),
)

-- Does the text hold the byte '.'?
abbrev pub has_dot : String → Bool
has_dot String.[] = false
has_dot (String.◌∷◌ c s) = eqb (code c) b'.' || has_dot s

abbrev dot : Char
dot = "."

dot-append : (r : String) → "." <> r ≡ String.◌∷◌ dot r
dot-append r = append.cons dot String.[] r ∙ ap (String.◌∷◌ dot) (append.nil r)

head_text : String → Char
head_text String.[] = dot
head_text (String.◌∷◌ c s) = c

-- A topic in the form in which the prefix is read off.
prefix_split : (tenant r : String) → topic_prefix tenant <> r ≡ "tenant." <> (tenant <> ("." <> r))
unfolding topic_prefix
prefix_split tenant r =
    append_assoc "tenant." (tenant <> ".") r ∙ ap (◌<>◌ "tenant.") (append_assoc tenant "." r)

-- With a dot in an id the isolation fails: every topic of the tenant `a.b` is also accepted for
-- the tenant `a`, whatever `a`, `b` and the rest of the topic are.
validate_topic_dotted :
    (a b rest : String)
    → (validate_topic (a <> ("." <> b)) (topic_prefix (a <> ("." <> b)) <> rest) ≡ none)
      × (validate_topic a (topic_prefix (a <> ("." <> b)) <> rest) ≡ none)
validate_topic_dotted a b rest = (
  (validate_topic_iff _ _).1 (rest, refl),
  (validate_topic_iff a _).1 (
    b <> ("." <> rest),
    prefix_split a _
        ∙ ap (◌<>◌ "tenant.")
            (sym (append_assoc a ("." <> b) _ ∙ ap (◌<>◌ a) (append_assoc "." b _)))
        ∙ sym (prefix_split (a <> ("." <> b)) rest),
  ),
)

-- One id is the other, or goes on after the other and a dot.
abbrev pub Extends : String → String → Type 0
Extends a b = (rest : String) × (b ≡ a <> ("." <> rest))

abbrev pub Overlaps : String → String → Type 0
Overlaps a b = (a ≡ b) ⊎ Extends a b ⊎ Extends b a

cons-Extends : (c : Char) (a b : String) → Extends a b → Extends (String.◌∷◌ c a) (String.◌∷◌ c b)
cons-Extends c a b (rest, e) = (rest, ap (String.◌∷◌ c) e ∙ sym (append.cons c a ("." <> rest)))

cons-Overlaps :
    (c : Char) (a b : String) → Overlaps a b → Overlaps (String.◌∷◌ c a) (String.◌∷◌ c b)
cons-Overlaps c a b (inl e) = inl (ap (String.◌∷◌ c) e)
cons-Overlaps c a b (inr (inl e)) = inr (inl (cons-Extends c a b e))
cons-Overlaps c a b (inr (inr e)) = inr (inr (cons-Extends c b a e))

-- The text that ends where the other one goes on.
ended-Extends :
    (c : Char) (b r s : String)
    → "" <> ("." <> r) ≡ String.◌∷◌ c b <> s
    → Extends "" (String.◌∷◌ c b)
unfolding head_text
ended-Extends c b r s h =
    (b, ap (λ d. String.◌∷◌ d b) (sym first) ∙ sym (append.nil ("." <> b) ∙ dot-append b))
  where
    first : dot ≡ c
    first = ap head_text (sym (append.nil ("." <> r) ∙ dot-append r) ∙ h ∙ append.cons c b s)

common_Overlaps : (a b r s : String) → a <> ("." <> r) ≡ b <> ("." <> s) → Overlaps a b
unfolding head_text tail_text
common_Overlaps String.[] String.[] r s h = inl refl
common_Overlaps String.[] (String.◌∷◌ c b) r s h = inr (inl (ended-Extends c b r _ h))
common_Overlaps (String.◌∷◌ c a) String.[] r s h = inr (inr (ended-Extends c a s _ (sym h)))
common_Overlaps (String.◌∷◌ c a) (String.◌∷◌ d b) r s h =
    rw (ap head_text e) (cons-Overlaps d a b (common_Overlaps a b r s (ap tail_text e)))
  where
    e : String.◌∷◌ c (a <> ("." <> r)) ≡ String.◌∷◌ d (b <> ("." <> s))
    e = sym (append.cons c a _) ∙ h ∙ append.cons d b _

abbrev pub ShareTopic : String → String → Type 0
ShareTopic a b =
    (topic : String) × (validate_topic a topic ≡ none) × (validate_topic b topic ≡ none)

Extends-ShareTopic : (a b : String) → Extends a b → ShareTopic a b
Extends-ShareTopic a b (rest, e) =
    let (below, above) = validate_topic_dotted a rest "" in
    (topic_prefix (a <> ("." <> rest)) <> "", above, rw e below)

-- Two tenants share a topic, one that is accepted for both, exactly when their ids are the same or one
-- id is the other with a dot and anything after it.
pub validate_topic_overlap : (a b : String) → ShareTopic a b ↔ Overlaps a b
validate_topic_overlap a b = (there, back)
  where
    there : ShareTopic a b → Overlaps a b
    there (topic, va, vb) =
        let (r, p) = (validate_topic_iff a topic).0 va in
        let (s, q) = (validate_topic_iff b topic).0 vb in
        common_Overlaps a b r s
          (append_cancel_left "tenant." _ _ (sym (prefix_split a r) ∙ p ∙ sym q ∙ prefix_split b s))

    back : Overlaps a b → ShareTopic a b
    back (inl e) =
        let shared = (validate_topic_iff a (topic_prefix a <> "")).1 ("", refl) in
        (topic_prefix a <> "", shared, rw (sym e) shared)
    back (inr (inl e)) = Extends-ShareTopic a b e
    back (inr (inr e)) = let (topic, vb, va) = Extends-ShareTopic b a e in (topic, va, vb)

has_dot-extended : (a r : String) → has_dot (a <> ("." <> r)) ≡ true
has_dot-extended String.[] r = rw (append.nil ("." <> r), dot-append r) refl
has_dot-extended (String.◌∷◌ c a) r =
    rw (append.cons c a ("." <> r)) (ground (arith, has_dot-extended a r))

-- Two tenants whose ids differ and hold no dot share no topic: a topic that is valid for one is
-- refused for the other.
validate_topic_isolates :
    (a b topic : String)
    → has_dot a ≡ false
    → has_dot b ≡ false
    → a ≢ b
    → validate_topic a topic ≡ none
    → validate_topic b topic ≢ none
validate_topic_isolates a b topic ha hb differ va vb =
    elim ((validate_topic_overlap a b).0 (topic, va, vb)) [
      | inl e ↦ differ e
      | inr (inl (rest, e)) ↦ cc (has_dot-extended a rest, ap has_dot e, hb)
      | inr (inr (rest, e)) ↦ cc (has_dot-extended b rest, ap has_dot e, ha)
    ]
