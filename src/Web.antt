-- ===== src/Web.antt =====
-- internal/web/web.go: the list of adapters whose health is shown, and the guard against requests of
-- other origins. A handler's answer is its status or the page that it leads to, with the kind of its
-- notice.
pub mod Vendors
pub mod Connections
pub mod Threads
pub mod Rotation
pub mod Health
pub mod Workdirs
pub mod Site
pub mod Atomic
pub mod Formats
pub mod Pages
mod RotationTests
mod WorkdirTests
mod SiteTests
mod AtomicTests
mod ThreadTests
mod Examples
use espur.Base.{
  ℕ, Bool, true, false, not, ◌&&◌, ◌||◌, List, [], ◌∷◌, ◌++◌, Option, none, some, Bytes, codes,
  same, is_empty, trim_space, split_at, select, if◌then◌else◌,
}

-- The routing keys of the adapters, in order of registration; the same key replaces its entry.
unfoldable pub register_adapter {ℓ} : {A : Type ℓ} → Bytes → A → List (Bytes × A) → List (Bytes × A)
register_adapter key a [] = (key, a) ∷ []
register_adapter key a ((k, b) ∷ rest_of) =
    let rest = register_adapter key a rest_of in
    if same k key then (key, a) ∷ rest_of else (k, b) ∷ rest

unfoldable pub unregister_adapter {ℓ} : {A : Type ℓ} → Bytes → List (Bytes × A) → List (Bytes × A)
unregister_adapter key [] = []
unregister_adapter key ((k, b) ∷ rest_of) =
    let rest = unregister_adapter key rest_of in if same k key then rest else (k, b) ∷ rest

-- The parts of a request that the guard reads.
pub record Request : Type 0 where
  pub method : Bytes
  pub origin : Bytes
  pub referer : Bytes
  pub host : Bytes

pub data Reply : Type 0 where
  status : ℕ → Reply
  redirect : Bytes → Reply
  silent_redirect : Reply

abbrev pub trimmed_all : List Bytes → List Bytes
trimmed_all [] = []
trimmed_all (t ∷ ts) =
    let rest = trimmed_all ts in if is_empty (trim_space t) then rest else trim_space t ∷ rest

-- ESPUR_WEB_TRUSTED_ORIGINS
unfoldable pub trusted_origins : Bytes → List Bytes
trusted_origins setting = trimmed_all (split_at b',' setting)

unfoldable pub is_among : Bytes → List Bytes → Bool
is_among host [] = false
is_among host (t ∷ ts) = same host t || is_among host ts

abbrev pub host_allowed : Request → List Bytes → Option Bytes → Bool
host_allowed r trusted none = false
host_allowed r trusted (some host) =
    not (is_empty host) && (same host r.host || is_among host trusted)

-- `host_of` is url.Parse and the host of its result, none for an error.
unfoldable pub same_origin : (Bytes → Option Bytes) → Request → List Bytes → Bool
unfolding is_among
same_origin host_of r trusted =
    let src = if is_empty r.origin then r.referer else r.origin in
    if is_empty src then true else host_allowed r trusted (host_of src)

abbrev pub is_safe : Bytes → Bool
is_safe m = same m (codes "GET") || (same m (codes "HEAD") || same m (codes "OPTIONS"))

-- csrfGuard: the handler runs on the state, or the request is rejected.
unfoldable pub csrf_guard {ℓ} :
    {S : Type ℓ} → (Bytes → Option Bytes) → List Bytes → Request → (S → Reply × S) → S → Reply × S
csrf_guard host_of trusted r next s =
    if is_safe r.method
    then next s
    else if not (same_origin host_of r trusted)
    then (Reply.status 403, s)
    else next s
