-- ===== src/Cf/Adapter/Spaces.antt =====
-- platform/cf/adapter.go, resolveSpaceGUID: which space a tenant gets, with a cache that holds the truth.
use muto.Prelude.{
  String, ◌==◌, Bool, true, false, Option, some, none, Result, ok, err, ◌≡◌, refl, arith, ap, sym,
  ◌∙◌,
}
use muto.Cf.Cache.{GuidCache, get, org_cache_key, space_cache_key}
use muto.Cf.Client.{CfClient}
use muto.Cf.Adapter.{
  CfAdapterConfig, Error, cached, resolve_org, resolve_space, in_org, resolve_space_guid, org_name,
  space_name,
}
use muto.Cf.Adapter.Steady.{Steady, has_colon, IsSound, set_org-IsSound, set_space-IsSound}

module _ {W E : Type 0} (c : CfClient W E) (config : CfAdapterConfig) (steady : Steady c) where
  open steady use {org_guid, space_guid}

  -- An answer that agrees with what a name stands for, beside a sound cache.
  record IsTrue (expected : Option String) (r : W × GuidCache × Result (Error E) String)
      : Type 0 where
    cache_sound : IsSound c steady r.1
    answer_true : (guid : String) → r.2 ≡ ok guid → expected ≡ some guid

  resolve_org-IsTrue :
      (w : W) (cache : GuidCache) (name : String)
      → IsSound c steady cache
      → IsTrue (org_guid name) (resolve_org c config w cache name)
  unfolding resolve_org cached
  resolve_org-IsTrue w cache name sound =
      by_cache (get cache (c.now w) (org_cache_key name)) refl (c.get_org_by_name w name) refl
    where
      by_cache :
          (got : Option String)
          → get cache (c.now w) (org_cache_key name) ≡ got
          → (r : W × Result E String) → c.get_org_by_name w name ≡ r
          → IsTrue (org_guid name) (resolve_org c config w cache name)
      by_cache (some guid) e r f =
          rw (e, resolve_org)
            (record {
              cache_sound = sound;
              answer_true = λ g h. ground (arith, h, steady, sound.org_sound (c.now w) name guid e);
            })
      by_cache none e (v, err x) f =
          rw (e, f, resolve_org)
            (record { cache_sound = sound; answer_true = λ g h. ground (arith, h) })
      by_cache none e (v, ok guid) f =
          let is = steady.org_answers w name guid (ap (λ x. x.1) f) in
          rw (e, f, resolve_org)
            (record {
              cache_sound = set_org-IsSound c steady cache (c.now v) name guid sound is;
              answer_true = λ g h. ground (arith, h, is);
            })

  resolve_space-IsTrue :
      (w : W) (cache : GuidCache) (org name : String)
      → IsSound c steady cache
      → has_colon org ≡ false
      → IsTrue (space_guid org name) (resolve_space c config w cache org name)
  unfolding resolve_space cached
  resolve_space-IsTrue w cache org name sound plain =
      by_cache (get cache (c.now w) (space_cache_key org name)) refl
        (c.get_space_by_name w org name) refl
    where
      by_cache :
          (got : Option String)
          → get cache (c.now w) (space_cache_key org name) ≡ got
          → (r : W × Result E String) → c.get_space_by_name w org name ≡ r
          → IsTrue (space_guid org name) (resolve_space c config w cache org name)
      by_cache (some guid) e r f =
          rw (e, resolve_space)
            (record {
              cache_sound = sound;
              answer_true =
                  λ g h. ground (arith, h, sound.space_sound (c.now w) org name guid plain e);
            })
      by_cache none e (v, err x) f =
          rw (e, f, resolve_space)
            (record { cache_sound = sound; answer_true = λ g h. ground (arith, h) })
      by_cache none e (v, ok guid) f =
          let is = steady.space_answers w org name guid (ap (λ x. x.1) f) in
          rw (e, f, resolve_space)
            (record {
              cache_sound = set_space-IsSound c steady cache (c.now v) org name guid sound plain is;
              answer_true = λ g h. ground (arith, h, is);
            })

  -- The space of a tenant, as the configuration places it.
  pub record OwnSpace (tenant space : String) : Type 0 where
    pub org : String
    pub of_org : org_guid (org_name config tenant) ≡ some org
    pub of_space : space_guid org (space_name config tenant) ≡ some space

  -- Two tenants do not have the same space.
  pub OwnSpace-injective : (a b space : String) → OwnSpace a space → OwnSpace b space → a ≡ b
  OwnSpace-injective a b space p q = by_tier (config.isolation_tier == "dedicated") refl
    where
      same : (p.org ≡ q.org) × (space_name config a ≡ space_name config b)
      same =
          steady.space_guid_injective p.org (space_name config a) q.org (space_name config b) space
            p.of_space q.of_space

      orgs : org_name config a ≡ org_name config b
      orgs =
          steady.org_guid_injective (org_name config a) (org_name config b) p.org p.of_org
            (q.of_org ∙ ap some (sym same.0))

      by_tier : (d : Bool) → (config.isolation_tier == "dedicated") ≡ d → a ≡ b
      by_tier true e = ground (arith, e, orgs)
      by_tier false e = ground (arith, e, same.1)

  -- The cache stays sound, whatever the API answers, and a resolved space is the tenant's own.
  pub resolve_space_guid-IsSound :
      (w : W) (cache : GuidCache) (tenant : String)
      → IsSound c steady cache
      → IsSound c steady (resolve_space_guid c config w cache tenant).1
  unfolding resolve_space_guid in_org
  resolve_space_guid-IsSound w cache tenant sound =
      by_org (resolve_org c config w cache (org_name config tenant))
        (resolve_org-IsTrue w cache (org_name config tenant) sound)
    where
      by_org :
          (r : W × GuidCache × Result (Error E) String)
          → IsTrue (org_guid (org_name config tenant)) r
          → IsSound c steady (in_org c config (space_name config tenant) r).1
      by_org (v, k, err e) t = t.cache_sound
      by_org (v, k, ok org) t =
          let plain = steady.org_guid_plain (org_name config tenant) org (t.answer_true org refl) in
          (resolve_space-IsTrue v k org (space_name config tenant) t.cache_sound plain).cache_sound

  pub resolve_space_guid-OwnSpace :
      (w : W) (cache : GuidCache) (tenant space : String)
      → IsSound c steady cache
      → (resolve_space_guid c config w cache tenant).2 ≡ ok space
      → OwnSpace tenant space
  unfolding resolve_space_guid in_org
  resolve_space_guid-OwnSpace w cache tenant space sound =
      by_org (resolve_org c config w cache (org_name config tenant))
        (resolve_org-IsTrue w cache (org_name config tenant) sound)
    where
      by_org :
          (r : W × GuidCache × Result (Error E) String)
          → IsTrue (org_guid (org_name config tenant)) r
          → (in_org c config (space_name config tenant) r).2 ≡ ok space
          → OwnSpace tenant space
      by_org (v, k, err e) t h = ground (arith, h)
      by_org (v, k, ok org) t h =
          let is = t.answer_true org refl in
          let plain = steady.org_guid_plain (org_name config tenant) org is in
          let true_space =
            resolve_space-IsTrue v k org (space_name config tenant) t.cache_sound plain in
          record { org = org; of_org = is; of_space = true_space.answer_true space h }
