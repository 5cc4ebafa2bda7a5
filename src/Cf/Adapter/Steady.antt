-- ===== src/Cf/Adapter/Steady.antt =====
-- platform/cf/adapter.go, resolveSpaceGUID: that the cache holds the truth. The names of organizations
-- and spaces are looked up in the API, whose documentation says what Steady does.
use Prim.Native.String.append
use Prim.Native.Char.{Char, code}
use muto.Prelude.{
  String, ◌<>◌, eq_iff, Bool, false, ◌||◌, Option, some, ok, ◌≡◌, refl, arith, ap, sym, ◌∙◌, eqb,
  if◌then◌else◌,
}
use muto.Prelude.Int.{ℤ}
use muto.Prelude.Text.{append_cancel_left}
use muto.Prelude.Dict.{lookup}
use muto.Cf.Cache.{GuidCache, get, set, get-set, org_cache_key, space_cache_key, new_guid_cache}
use muto.Cf.Client.{CfClient}
use muto.Cf.Adapter.Resolving.{org_key≢space_key}

abbrev pub has_colon : String → Bool
has_colon String.[] = false
has_colon (String.◌∷◌ c s) = eqb (code c) b':' || has_colon s

unfoldable before_colon : String → String
before_colon String.[] = String.[]
before_colon (String.◌∷◌ c s) =
    let rest = before_colon s in if eqb (code c) b':' then String.[] else String.◌∷◌ c rest

colon : Char
colon = ":"

colon-append : (r : String) → ":" <> r ≡ String.◌∷◌ colon r
unfolding colon
colon-append r = append.cons colon String.[] r ∙ ap (String.◌∷◌ colon) (append.nil r)

before_colon-append : (a r : String) → has_colon a ≡ false → before_colon (a <> (":" <> r)) ≡ a
unfolding before_colon colon
before_colon-append String.[] r h = rw (append.nil (":" <> r), colon-append r) refl
before_colon-append (String.◌∷◌ c a) r h =
    rw (append.cons c a (":" <> r)) (ground (arith, before_colon-append a r))

-- With no colon in the organization's GUID, the key of a space can be read back.
space_key_injective :
    (g n h m : String)
    → has_colon g ≡ false
    → has_colon h ≡ false
    → space_cache_key g n ≡ space_cache_key h m
    → (g ≡ h) × (n ≡ m)
space_key_injective g n h m plain plain' same = (orgs, names)
  where
    tails : g <> (":" <> n) ≡ h <> (":" <> m)
    tails = append_cancel_left "space:" _ _ same

    orgs : g ≡ h
    orgs =
        sym (before_colon-append g n plain) ∙ ap before_colon tails ∙ before_colon-append h m plain'

    names : n ≡ m
    names =
        append_cancel_left ":" n m
          (append_cancel_left h _ _ (sym (ap (λ x. x <> (":" <> n)) orgs) ∙ tails))

-- A name of an organization, or of a space of an organization, stands for one GUID for good, if for any;
-- no two of them stand for the same, and an organization's GUID has no colon.
pub record Steady {W E : Type 0} (c : CfClient W E) : Type 0 where
  pub org_guid : String → Option String
  pub space_guid : String → String → Option String
  pub org_answers :
      (w : W) (name guid : String)
      → (c.get_org_by_name w name).1 ≡ ok guid
      → org_guid name ≡ some guid
  pub space_answers :
      (w : W) (org name guid : String)
      → (c.get_space_by_name w org name).1 ≡ ok guid
      → space_guid org name ≡ some guid
  pub org_guid_plain : (name guid : String) → org_guid name ≡ some guid → has_colon guid ≡ false
  pub org_guid_injective :
      (name other guid : String)
      → org_guid name ≡ some guid
      → org_guid other ≡ some guid
      → name ≡ other
  pub space_guid_injective :
      (org name org' name' guid : String)
      → space_guid org name ≡ some guid
      → space_guid org' name' ≡ some guid
      → (org ≡ org') × (name ≡ name')

module _ {W E : Type 0} (c : CfClient W E) (steady : Steady c) where
  open steady use {org_guid, space_guid}

  -- What the cache gives, at any time, is what the name stands for.
  pub record IsSound (cache : GuidCache) : Type 0 where
    pub org_sound :
        (now : ℤ) (name guid : String)
        → get cache now (org_cache_key name) ≡ some guid
        → org_guid name ≡ some guid
    pub space_sound :
        (now : ℤ) (org name guid : String)
        → has_colon org ≡ false
        → get cache now (space_cache_key org name) ≡ some guid
        → space_guid org name ≡ some guid

  pub new_guid_cache-IsSound : (ttl : ℤ) → IsSound (new_guid_cache ttl)
  unfolding get lookup
  new_guid_cache-IsSound ttl = record {
    org_sound = λ now name guid h. ground (arith, h);
    space_sound = λ now org name guid plain h. ground (arith, h);
  }

  pub set_org-IsSound :
      (cache : GuidCache) (t : ℤ) (name guid : String)
      → IsSound cache
      → org_guid name ≡ some guid
      → IsSound (set cache t (org_cache_key name) guid)
  set_org-IsSound cache t name guid sound is = record {
    org_sound = λ now other found h. ground (
      arith,
      h,
      get-set cache t now (org_cache_key name) guid (org_cache_key other),
      eq_iff (org_cache_key name) (org_cache_key other),
      append_cancel_left "org:" name other,
      sound.org_sound now other found,
    );
    space_sound = λ now org space found plain h. ground (
      arith,
      h,
      get-set cache t now (org_cache_key name) guid (space_cache_key org space),
      eq_iff (org_cache_key name) (space_cache_key org space),
      org_key≢space_key name org space,
      sound.space_sound now org space found plain,
    );
  }

  pub set_space-IsSound :
      (cache : GuidCache) (t : ℤ) (org name guid : String)
      → IsSound cache
      → has_colon org ≡ false
      → space_guid org name ≡ some guid
      → IsSound (set cache t (space_cache_key org name) guid)
  set_space-IsSound cache t org name guid sound plain is = record {
    org_sound = λ now other found h. ground (
      arith,
      h,
      get-set cache t now (space_cache_key org name) guid (org_cache_key other),
      eq_iff (space_cache_key org name) (org_cache_key other),
      λ (e : space_cache_key org name ≡ org_cache_key other). sym e,
      org_key≢space_key other org name,
      sound.org_sound now other found,
    );
    space_sound = λ now org' other found plain' h. ground (
      arith,
      h,
      get-set cache t now (space_cache_key org name) guid (space_cache_key org' other),
      eq_iff (space_cache_key org name) (space_cache_key org' other),
      space_key_injective org name org' other plain plain',
      sound.space_sound now org' other found plain',
    );
  }
