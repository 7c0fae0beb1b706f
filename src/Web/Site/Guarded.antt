-- ===== src/Web/Site/Guarded.antt =====
-- What a request can change.
use espur.Base.{
  subst, ◌++◌, is_empty, All, if◌then◌else◌, ℕ, ◌≡◌, ◌≢◌, refl, ◌∙◌, sym, ap, ◌⊎◌, inl, inr, true,
  false, not, List, [], ◌∷◌, Option, none, some, Bytes, codes, same, same_iff, has_prefix, if_true,
  if_false, arith, bytes_eq,
}
use espur.Web.{
  Request, Reply, csrf_guard, same_origin, trusted_origins, is_safe, is_among, host_allowed,
}
use espur.Web.Threads.{thread_dir}
use espur.Web.Site.{
  Route, Form, Site, Surroundings, Served, method_of, get, post, routed, muxed, handler, static,
  healthz_route, home, vendors_list, oauth, threads, settings, health, thread_detail, qr_png,
}

routed_get :
    (u : Surroundings) (f : Form) (r : Route) (s : Site)
    → method_of r ≢ post
    → (routed u f r s).1 ≡ s
unfolding routed method_of
routed_get u f (static file) s ne = refl
routed_get u f healthz_route s ne = refl
routed_get u f home s ne = refl
routed_get u f vendors_list s ne = refl
routed_get u f oauth s ne = refl
routed_get u f threads s ne = refl
routed_get u f settings s ne = refl
routed_get u f health s ne = refl
routed_get u f (thread_detail platform enc) s ne = refl
routed_get u f (qr_png id) s ne = refl
routed_get u f _ s ne = absurd (ne refl)

-- What net/http documents of its patterns: a pattern with a method is matched by requests of that
-- method, and one with GET by HEAD as well.
abbrev pub MatchesMethod : (Bytes → Bytes → Option Route) → Type 0
MatchesMethod match =
    (m p : Bytes) (r : Route)
    → match m p ≡ some r
    → (method_of r ≡ m) ⊎ (method_of r ≡ get) × (m ≡ codes "HEAD")

safe-ne-post : (m : Bytes) → is_safe m ≡ true → m ≢ post
unfolding same
safe-ne-post m h e = let x : true ≡ false = sym h ∙ ap is_safe e in cc

muxed_safe :
    (match : Bytes → Bytes → Option Route) (u : Surroundings) (f : Form) (missing : ℕ) (m p : Bytes)
    (s : Site)
    → MatchesMethod match
    → is_safe m ≡ true
    → (muxed (match m p) u f missing s).1 ≡ s
muxed_safe match u f missing m p s law safe = by_route (match m p) refl
  where
    by_route : (o : Option Route) → match m p ≡ o → (muxed o u f missing s).1 ≡ s
    by_route none e = refl
    by_route (some r) e =
        routed_get u f r s
          (λ q. elim (law m p r e) [ inl g ↦ safe-ne-post m safe (sym g ∙ q) | inr g ↦ cc ])

-- Where a request says that it comes from: its Origin, or without one its Referer.
abbrev pub ComesFrom : Request → Bytes → Type 0
ComesFrom r src = (src ≢ []) × ((r.origin ≡ src) ⊎ ((r.origin ≡ []) × (r.referer ≡ src)))

-- No host can be read from there, or one that is neither the site's own nor a trusted one.
abbrev pub IsForeignHost : Request → List Bytes → Option Bytes → Type 0
IsForeignHost r trusted none = Unit
IsForeignHost r trusted (some host) = (host ≡ []) ⊎ ((host ≢ r.host) × All (λ t. t ≢ host) trusted)

is_among-absent :
    (host : Bytes) (ts : List Bytes) → All (λ t. t ≢ host) ts → is_among host ts ≡ false
unfolding is_among
is_among-absent host [] h = refl
is_among-absent host (t ∷ ts) h =
    ground (arith, is_among-absent host ts h.1, same_iff host t, same_iff t host, h.0)

same_origin-foreign :
    (host_of : Bytes → Option Bytes) (r : Request) (trusted : List Bytes) (src : Bytes)
    → ComesFrom r src
    → IsForeignHost r trusted (host_of src)
    → same_origin host_of r trusted ≡ false
unfolding same_origin
same_origin-foreign host_of r trusted src (ne, from) foreign =
    let here : (if is_empty r.origin then r.referer else r.origin) ≡ src = elim from [
      | inl e ↦ if_false _ _ (ap is_empty e ∙ not_empty src ne) ∙ e
      | inr (blank, e) ↦ if_true _ _ (ap is_empty blank) ∙ e
    ] in
    ap (λ s. if is_empty s then true else host_allowed r trusted (host_of s)) here
    ∙ (if_false _ _ (not_empty src ne) ∙ refused (host_of src) foreign)
  where
    not_empty : (s : Bytes) → s ≢ [] → is_empty s ≡ false
    not_empty [] n = absurd (n refl)
    not_empty (c ∷ s) n = refl

    refused : (o : Option Bytes) → IsForeignHost r trusted o → host_allowed r trusted o ≡ false
    refused none h = refl
    refused (some host) (inl e) = ap (λ h. host_allowed r trusted (some h)) e
    refused (some host) (inr (other, absent)) =
        ground (arith, is_among-absent host trusted absent, same_iff host r.host)

-- A request changes something only if its method says so and it does not come from another site: a
-- GET, HEAD or OPTIONS leaves the whole state as it is. So does any other request whose Origin, or
-- without one whose Referer, has no host or one that is neither the site's own nor trusted, and it is
-- answered with 403; whatever the route, the form and the surroundings.
pub foreign_changes_nothing :
    (match : Bytes → Bytes → Option Route) (host_of : Bytes → Option Bytes) (setting : Bytes)
    (u : Surroundings) (missing : ℕ) (r : Request) (path : Bytes) (f : Form) (s : Site)
    → MatchesMethod match
    → let a = handler match host_of setting u missing r path f s in
      (is_safe r.method ≡ true → a.1 ≡ s)
      × ((src : Bytes)
          → is_safe r.method ≡ false
          → ComesFrom r src
          → IsForeignHost r (trusted_origins setting) (host_of src)
          → (a.0 ≡ Reply.status 403) × (a.1 ≡ s))
unfolding handler csrf_guard
foreign_changes_nothing match host_of setting u missing r path f s law = (
  λ safe.
      ap (λ (a : Served). a.1) (if_true _ _ safe)
      ∙ muxed_safe match u f missing r.method path s law safe,
  λ src unsafe from foreign.
      let refused = same_origin-foreign host_of r (trusted_origins setting) src from foreign in
      let e = if_false {A = Served} _ _ unsafe ∙ if_true {A = Served} _ _ (ap not refused) in
      (ap (λ (a : Served). a.0) e, ap (λ (a : Served). a.1) e),
)

-- What lies outside the directory of the threads.
abbrev pub IsOutside : Surroundings → Bytes → Type 0
IsOutside u p = has_prefix p (u.clean (u.base_dir ++ codes "/threads") ++ codes "/") ≡ false

-- What filepath.Clean documents: its result is the shortest path, which it leaves as it is.
abbrev pub IsStable : (Bytes → Bytes) → Type 0
IsStable clean = (s : Bytes) → clean (clean s) ≡ clean s

accepted :
    (clean : Bytes → Bytes) (base platform enc path : Bytes)
    → IsStable clean
    → thread_dir clean base platform enc ≡ some path
    → has_prefix (clean path) (clean (base ++ codes "/threads") ++ codes "/") ≡ true
unfolding thread_dir
accepted clean base platform enc path stable h =
    let at_dir = clean (base ++ codes "/threads/" ++ platform ++ codes "/" ++ enc) in
    let root = clean (base ++ codes "/threads") ++ codes "/" in
    let both : (has_prefix at_dir root ≡ true) × (at_dir ≡ path) = ground arith in
    let resolved : clean path ≡ at_dir = ap clean (sym both.1) ∙ stable _ in
    subst (λ x. has_prefix x root ≡ true) (sym resolved) both.0
