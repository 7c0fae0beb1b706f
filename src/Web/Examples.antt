-- ===== src/Web/Examples.antt =====
-- The vendors' page.
use espur.Base.{
  ◌*◌, ◌≡◌, refl, inl, false, [], ◌∷◌, some, codes, same, trim_space, arith, bytes_eq, pair_eq,
}
use espur.Store.{empty_db, eligible, second}
use espur.Store.Vendors.{get_penalty}
use espur.Providers.{lookup_model, lookup_in, has_model, catalog}
use espur.Web.{Reply, csrf_guard, same_origin, is_among}
use espur.Web.Vendors.{Weather, vendor_set_key, vendor_set_key_lem, move_up, vendor_add}

abbrev calm : Weather
calm = record {
  now = 5 * second;
  encrypt = λ s. some (1 ∷ s);
  read_fails = false;
  write_fails = false;
  credential_fails = false;
}

-- A vendor in the middle of three goes up.
moves_up :
    move_up (codes "b") (codes "a" ∷ codes "b" ∷ codes "c" ∷ [])
    ≡ codes "b" ∷ codes "a" ∷ codes "c" ∷ []
unfolding move_up same
moves_up = refl

-- A request that another site sends is refused, and nothing changes.
forged :
    csrf_guard
      (λ s. some s)
      []
      (record { method = codes "POST"; origin = codes "evil"; referer = []; host = codes "espur" })
      (λ n. (Reply.silent_redirect, n))
      (codes "state")
    ≡ (Reply.status 403, codes "state")
unfolding csrf_guard same_origin is_among same
forged = refl

-- A provider that gives no key cannot be added with one.
oauth_only :
    vendor_add calm (codes "cp") (codes "github-copilot/gpt-5.5") [] empty_db
    ≡ (Reply.status 400, empty_db)
unfolding vendor_add lookup_model lookup_in has_model catalog same trim_space
oauth_only = refl

vendor_set_key_lem_example :
    (get_penalty 9
      (codes "zai")
      (vendor_set_key calm (codes "zai") (codes "k") (codes "KEY") empty_db).1).status
    ≡ eligible
unfolding trim_space
vendor_set_key_lem_example =
    (vendor_set_key_lem calm (codes "zai") (codes "k") (codes "KEY") (1 ∷ codes "k")
      (codes "KEY" ∷ []) 9 empty_db refl refl refl refl (inl ((λ e. cc), refl)) (ground arith)).1
