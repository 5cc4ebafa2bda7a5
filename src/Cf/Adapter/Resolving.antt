-- ===== src/Cf/Adapter/Resolving.antt =====
-- platform/cf/adapter.go, resolveSpaceGUID: what the cache saves.
use Prim.Native.String.append
use Prim.Native.Char.{Char, code}
use muto.Prelude.{
  String, ◌<>◌, eq_iff, eq_refl, false, none, some, Result, ok, err, ◌≡◌, ◌≢◌, refl, arith, ap,
  subst, sym, ◌∙◌,
}
use muto.Prelude.Int.{ℤ, ◌+ℤ◌, ◌≤ℤ◌, ltb_ℤ}
use muto.Cf.Cache.{GuidCache, get, set, get-set, org_cache_key, space_cache_key, new_guid_cache}
use muto.Prelude.Dict.{lookup}
use muto.Cf.Client.{CfClient}
use muto.Cf.Adapter.{
  CfAdapterConfig, Error, get_org_failed, get_space_failed, cached, resolve_org, resolve_space,
  in_org, resolve_space_guid, org_name, space_name,
}

first_char : String → Char
first_char String.[] = "?"
first_char (String.◌∷◌ c s) = c

-- No key of an organization is one of a space.
pub org_key≢space_key : (name guid space : String) → org_cache_key name ≢ space_cache_key guid space
unfolding first_char
org_key≢space_key name guid space h = ground (arith, ap code first)
  where
    o : Char
    o = "o"

    s : Char
    s = "s"

    first : o ≡ s
    first =
        sym (ap first_char (append.cons o "rg:" name))
        ∙ ap first_char h
        ∙ ap first_char (append.cons s "pace:" (guid <> (":" <> space)))

-- Time goes on over the calls, and the entry of an answer expires a time to live after it.
not_expired : (a b t v : ℤ) → a ≤ℤ b → v ≤ℤ a +ℤ t → ltb_ℤ (b +ℤ t) v ≡ false
unfolding ◌+ℤ◌
not_expired a b t v h k = ground arith

-- What the adapter relies on: the clock does not go back over a call.
pub record Ticks {W E : Type 0} (c : CfClient W E) : Type 0 where
  pub org_later : (w : W) (n : String) → c.now w ≤ℤ c.now (c.get_org_by_name w n).0
  pub space_later : (w : W) (g n : String) → c.now w ≤ℤ c.now (c.get_space_by_name w g n).0

module _ {W E : Type 0} (c : CfClient W E) (config : CfAdapterConfig) (ticks : Ticks c) where
  -- A call that answers with a value has cached it at its own time.
  cached_ok :
      (cache cache' : GuidCache) (key guid : String) (wrap : E → Error E) (r : W × Result E String)
      (w' : W)
      → cached c config cache key wrap r ≡ (w', cache', ok guid)
      → (r.0 ≡ w') × (cache' ≡ set cache (c.now w') key guid)
  unfolding cached
  cached_ok cache cache' key guid wrap (x, err e) w' h = ground arith
  cached_ok cache cache' key guid wrap (x, ok g) w' h = ground arith

  in_org_ok :
      (name guid : String) (r : W × GuidCache × Result (Error E) String) (w' : W)
      (cache : GuidCache)
      → in_org c config name r ≡ (w', cache, ok guid)
      → (w₁ : W) × (cache₁ : GuidCache) × (org : String) × (r ≡ (w₁, cache₁, ok org))
        × (resolve_space c config w₁ cache₁ org name ≡ (w', cache, ok guid))
  unfolding in_org
  in_org_ok name guid (x, y, err e) w' cache h = ground arith
  in_org_ok name guid (x, y, ok org) w' cache h = (x, y, org, refl, h)

  org_missed :
      (w : W) (ttl : ℤ) (name : String)
      → resolve_org c config w (new_guid_cache ttl) name
        ≡ cached c config
            (new_guid_cache ttl)
            (org_cache_key name)
            (get_org_failed name)
            (c.get_org_by_name w name)
  unfolding resolve_org get lookup
  org_missed w ttl name = refl

  space_missed :
      (w : W) (cache : GuidCache) (org name : String)
      → get cache (c.now w) (space_cache_key org name) ≡ none
      → resolve_space c config w cache org name
        ≡ cached c config cache
            (space_cache_key org name)
            (get_space_failed name)
            (c.get_space_by_name w org name)
  unfolding resolve_space
  space_missed w cache org name h = rw (h, resolve_space) refl

  -- With both values in the cache no call is made.
  both_found :
      (v : W) (cache : GuidCache) (tenant org guid : String)
      → get cache (c.now v) (org_cache_key (org_name config tenant)) ≡ some org
      → get cache (c.now v) (space_cache_key org (space_name config tenant)) ≡ some guid
      → resolve_space_guid c config v cache tenant ≡ (v, cache, ok guid)
  unfolding resolve_space_guid resolve_org resolve_space in_org
  both_found v cache tenant org guid h k =
      ap (in_org c config (space_name config tenant)) org_found ∙ rw (k, resolve_space) refl
    where
      org_found : resolve_org c config v cache (org_name config tenant) ≡ (v, cache, ok org)
      org_found = rw (h, resolve_org) refl

  -- The cache after the two answers, read at a later time.
  read_back :
      (ttl t₁ t₂ now : ℤ) (name org space guid : String)
      → ltb_ℤ (t₁ +ℤ ttl) now ≡ false
      → ltb_ℤ (t₂ +ℤ ttl) now ≡ false
      → let cache =
          set
            (set (new_guid_cache ttl) t₁ (org_cache_key name) org)
            t₂
            (space_cache_key org space)
            guid in
        (get cache now (org_cache_key name) ≡ some org)
        × (get cache now (space_cache_key org space) ≡ some guid)
  unfolding set
  read_back ttl t₁ t₂ now name org space guid h k =
      let before = new_guid_cache ttl in
      let ok_key = org_cache_key name in
      let sp_key = space_cache_key org space in
      let between = set before t₁ ok_key org in
      (
        ground (
          arith,
          get-set between t₂ now sp_key guid ok_key,
          get-set before t₁ now ok_key org ok_key,
          eq_iff sp_key ok_key,
          eq_refl ok_key,
          org_key≢space_key name org space,
        ),
        ground (arith, get-set between t₂ now sp_key guid sp_key, eq_refl sp_key),
      )

  -- The key of a space is not in the cache that holds an organization alone.
  space_absent :
      (ttl t now : ℤ) (name org space : String)
      → get (set (new_guid_cache ttl) t (org_cache_key name) org) now (space_cache_key org space)
        ≡ none
  unfolding get lookup
  space_absent ttl t now name org space = ground (
    arith,
    get-set (new_guid_cache ttl) t now (org_cache_key name) org (space_cache_key org space),
    eq_iff (org_cache_key name) (space_cache_key org space),
    org_key≢space_key name org space,
  )

  -- When the clock does not go back over a call (Ticks), a tenant that was resolved with a new
  -- cache is resolved again, at any later state within the time to live, to the same space, with
  -- no call of the API and the cache as it was.
  pub resolve_space_guid_again :
      (w v : W) (ttl : ℤ) (tenant guid : String) (w' : W) (cache : GuidCache)
      → resolve_space_guid c config w (new_guid_cache ttl) tenant ≡ (w', cache, ok guid)
      → c.now v ≤ℤ c.now w +ℤ ttl
      → resolve_space_guid c config v cache tenant ≡ (v, cache, ok guid)
  unfolding resolve_space_guid
  resolve_space_guid_again w v ttl tenant guid w' cache h k =
      let name = org_name config tenant in
      let space = space_name config tenant in
      let fresh = new_guid_cache ttl in
      let (w₁, cache₁, org, first, second) =
        in_org_ok space guid (resolve_org c config w fresh name) w' cache h in
      let (at₁, is₁) =
        cached_ok fresh cache₁ (org_cache_key name) org (get_org_failed name)
          (c.get_org_by_name w name) w₁ (sym (org_missed w ttl name) ∙ first) in
      let absent : get cache₁ (c.now w₁) (space_cache_key org space) ≡ none =
        ap (λ x. get x (c.now w₁) (space_cache_key org space)) is₁
        ∙ space_absent ttl (c.now w₁) (c.now w₁) name org space in
      let (at₂, is₂) =
        cached_ok cache₁ cache (space_cache_key org space) guid (get_space_failed space)
          (c.get_space_by_name w₁ org space) w'
          (sym (space_missed w₁ cache₁ org space absent) ∙ second) in
      let later₁ : c.now w ≤ℤ c.now w₁ =
        subst (λ x. c.now w ≤ℤ c.now x) at₁ (ticks.org_later w name) in
      let later₂ : c.now w₁ ≤ℤ c.now w' =
        subst (λ x. c.now w₁ ≤ℤ c.now x) at₂ (ticks.space_later w₁ org space) in
      let whole : cache
          ≡ set (set fresh (c.now w₁) (org_cache_key name) org) (c.now w')
              (space_cache_key org space) guid =
        is₂ ∙ ap (λ x. set x (c.now w') (space_cache_key org space) guid) is₁ in
      let (read₁, read₂) =
        read_back ttl (c.now w₁) (c.now w') (c.now v) name org space guid
          (not_expired (c.now w) (c.now w₁) ttl (c.now v) later₁ k)
          (not_expired (c.now w) (c.now w') ttl (c.now v) (omega (arith, later₁, later₂)) k) in
      both_found v cache tenant org guid
        (ap (λ x. get x (c.now v) (org_cache_key name)) whole ∙ read₁)
        (ap (λ x. get x (c.now v) (space_cache_key org space)) whole ∙ read₂)
