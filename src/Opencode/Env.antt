-- ===== src/Opencode/Env.antt =====
-- internal/opencode/invoker.go: buildEnv, the environment of a vendor's server, and what of it the
-- pool decides. `env` is os.LookupEnv.
use espur.Base.{
  ℕ, ◌≡◌, ◌≢◌, refl, ◌∙◌, ap, List, [], ◌∷◌, ◌++◌, map, Option, none, some, Bytes, codes, same,
  same_iff, is_empty, trim_space, split_at, if◌then◌else◌, map_some, All, arith,
}
use espur.Store.{Db, Credential, vendor_scope}
use espur.Store.Credentials.{put_credential, get_credential, get_credential-put_credential, IsPlain}
use espur.Vendor.Pool.{Env, load_cred_env}

abbrev pub Variables : Type 0
Variables = Bytes → Option Bytes

abbrev pub assigned : Bytes × Bytes → Bytes
assigned (k, v) = k ++ codes "=" ++ v

abbrev pub base_names : List Bytes
base_names =
    codes "PATH"
    ∷ codes "HOME"
    ∷ codes "TMPDIR"
    ∷ codes "XDG_DATA_HOME"
    ∷ codes "XDG_CONFIG_HOME"
    ∷ codes "XDG_CACHE_HOME"
    ∷ []

-- os.Getenv
abbrev pub or_empty : Option Bytes → Bytes
or_empty none = []
or_empty (some v) = v

abbrev pub given : Bytes → Option Bytes → List Bytes → List Bytes
given k none rest = rest
given k (some v) rest = assigned (k, v) ∷ rest

abbrev pub forward : Variables → List Bytes → List Bytes
forward env [] = []
forward env (k ∷ ks) = given k (env k) (forward env ks)

-- The names that the operator lists, without the empty ones.
abbrev pub named : List Bytes → List Bytes
named [] = []
named (k ∷ ks) =
    let rest = named ks in if is_empty (trim_space k) then rest else trim_space k ∷ rest

abbrev pub passthrough : Bytes
passthrough = codes "ESPUR_OPENCODE_ENV_PASSTHROUGH"

unfoldable pub passed : Variables → List Bytes
passed env = named (split_at b',' (or_empty (env passthrough)))

-- The entries of the map of credentials stand in any order.
unfoldable pub build_env : Variables → List (Bytes × Bytes) → List Bytes
unfolding passed
build_env env creds = forward env base_names ++ (forward env (passed env) ++ map assigned creds)

abbrev pub IsAbsent : Bytes → List Bytes → Type 0
IsAbsent k ks = All (λ n. n ≢ k) ks

-- The variables, with one changed.
abbrev pub with_value : Bytes → Option Bytes → Variables → Variables
with_value k v env n = if same n k then v else env n

with_value_ne :
    (k n : Bytes) (v : Option Bytes) (env : Variables) → n ≢ k → with_value k v env n ≡ env n
with_value_ne k n v env ne = ground (arith, same_iff n k)

forward_blind :
    (k : Bytes) (v : Option Bytes) (env : Variables) (ks : List Bytes)
    → IsAbsent k ks
    → forward (with_value k v env) ks ≡ forward env ks
forward_blind k v env [] h = refl
forward_blind k v env (n ∷ ks) h =
    λ i. given n (with_value_ne k n v env h.0 i) (forward_blind k v env ks h.1 i)

abbrev pub master_key : Bytes
master_key = codes "ESPUR_MASTER_KEY"

master-IsAbsent : IsAbsent master_key base_names
master-IsAbsent = ground arith

build_env_blind :
    (env : Variables) (key : Option Bytes) (creds : List (Bytes × Bytes))
    → IsAbsent master_key (passed env)
    → build_env (with_value master_key key env) creds ≡ build_env env creds
unfolding build_env
build_env_blind env key creds hidden =
    let names =
      ap (λ (o : Option Bytes). named (split_at b',' (or_empty o)))
        (with_value_ne master_key passthrough key env (λ e. cc)) in
    λ i.
      forward_blind master_key key env base_names master-IsAbsent i
      ++ ((ap (forward (with_value master_key key env)) names
              ∙ forward_blind master_key key env (passed env) hidden)
            i
          ++ map assigned creds)

load_cred_env_of :
    (env : Env) (p : ℕ) (id : Bytes) (db db' : Db)
    → get_credential vendor_scope id db' ≡ get_credential vendor_scope id db
    → load_cred_env env p id db' ≡ load_cred_env env p id db
unfolding load_cred_env
load_cred_env_of env p id db db' e = rw (e, load_cred_env) refl

-- The environment that a vendor's server is started with, if its credential can be read.
unfoldable pub child_env : Variables → Env → ℕ → Bytes → Db → Option (List Bytes)
unfolding build_env
child_env vars env p id db = map_some (build_env vars) (load_cred_env env p id db)

-- A vendor's server learns neither the master key nor another vendor's secret: unless the operator
-- lists the master key among the names to pass on, the environment of the server is the same
-- whatever the master key is; and it is the same whatever credential is stored for another vendor
-- or in another scope, if the names of its keys can be stored.
pub child_env_blind :
    (vars : Variables) (key : Option Bytes) (env : Env) (p : ℕ) (id : Bytes) (now : ℕ)
    (c : Credential) (db : Db)
    → IsAbsent master_key (passed vars)
    → All IsPlain c.env_keys
    → ◌≢◌ {A = Bytes × Bytes} (c.scope, c.id) (vendor_scope, id)
    → (child_env (with_value master_key key vars) env p id db ≡ child_env vars env p id db)
      × (child_env vars env p id (put_credential now c db) ≡ child_env vars env p id db)
unfolding child_env
child_env_blind vars key env p id now c db hidden plain other = (
  by_creds (load_cred_env env p id db),
  ap (map_some (build_env vars)) (
      load_cred_env_of env p id db (put_credential now c db)
        (get_credential-put_credential now c vendor_scope id db plain other).1),
)
  where
    by_creds :
        (o : Option (List (Bytes × Bytes)))
        → map_some (build_env (with_value master_key key vars)) o ≡ map_some (build_env vars) o
    by_creds none = refl
    by_creds (some creds) = ap some (build_env_blind vars key creds hidden)
