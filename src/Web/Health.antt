-- ===== src/Web/Health.antt =====
-- internal/web/json.go and internal/web/web.go: the health endpoint and the page beside it. The
-- adapters are given as the registry's snapshot, each with what its Healthy returned.
use espur.Base.{
  ℕ, ◌+◌, ◌≤◌, ◌≡◌, ◌↔◌, refl, Bool, true, false, ◌&&◌, List, [], ◌∷◌, ◌++◌, append-nil,
  append_assoc, sym, ◌∙◌, Bytes, codes, bytes_eq, length, ◌==◌, if◌then◌else◌, All, arith,
}
use espur.Web.{register_adapter}

abbrev pub Snapshot : Type 0
Snapshot = List (Bytes × Bool)

-- What the endpoint writes: the fields ok and adapters.
pub record Body : Type 0 where
  pub ok : Bool
  pub adapters : Snapshot

-- The loop over the adapters, of healthz and of healthzJSON.
abbrev pub fill : Snapshot → Body → Body
fill [] out = out
fill ((platform, h) ∷ rest) out =
    fill rest
      (record { ok = if h then out.ok else false; adapters = out.adapters ++ (platform, h) ∷ [] })

-- healthz: the status and the body.
unfoldable pub healthz : Snapshot → ℕ × Body
healthz adapters =
    let out = fill adapters (record { ok = true; adapters = [] }) in
    (if out.ok then 200 else 503, out)

pub record HealthPage : Type 0 where
  pub ok : Bool
  pub up : ℕ
  pub total : ℕ
  pub labels : List Bytes

abbrev pub label_of : Bytes × Bool → Bytes
label_of (platform, true) = platform
label_of (platform, false) = platform ++ codes " (down)"

abbrev pub observe : Snapshot → HealthPage → HealthPage
observe [] page = page
observe (a ∷ rest) page = observe rest (record page {
  total = page.total + 1;
  up = if a.1 then page.up + 1 else page.up;
  labels = page.labels ++ label_of a ∷ [];
})

-- healthPage, as far as it is about the adapters.
unfoldable pub health_page : Snapshot → HealthPage
health_page adapters =
    let page = observe adapters (record { ok = true; up = 0; total = 0; labels = [] }) in
    record page { ok = page.up == page.total }

abbrev pub AllHealthy : Snapshot → Type 0
AllHealthy adapters = All (λ (a : Bytes × Bool). a.1 ≡ true) adapters

abbrev all_up : Snapshot → Bool
all_up [] = true
all_up ((platform, h) ∷ rest) = h && all_up rest

abbrev count_up : Snapshot → ℕ
count_up [] = 0
count_up ((platform, h) ∷ rest) = (if h then 1 else 0) + count_up rest

fill_lem :
    (adapters : Snapshot) (out : Body)
    → ((fill adapters out).ok ≡ (out.ok && all_up adapters))
      × ((fill adapters out).adapters ≡ out.adapters ++ adapters)
fill_lem [] out = (ground arith, sym (append-nil out.adapters))
fill_lem ((platform, h) ∷ rest) out =
    let step : Body = record {
      ok = if h then out.ok else false;
      adapters = out.adapters ++ (platform, h) ∷ [];
    } in
    (
      ground (arith, (fill_lem rest step).0),
      (fill_lem rest step).1 ∙ append_assoc out.adapters ((platform, h) ∷ []) rest,
    )

observe_lem :
    (adapters : Snapshot) (page : HealthPage)
    → ((observe adapters page).up ≡ page.up + count_up adapters)
      × ((observe adapters page).total ≡ page.total + length adapters)
observe_lem [] page = (omega arith, omega arith)
observe_lem (a ∷ rest) page =
    let step : HealthPage = record page {
      total = page.total + 1;
      up = if a.1 then page.up + 1 else page.up;
      labels = page.labels ++ label_of a ∷ [];
    } in
    (ground (arith, (observe_lem rest step).0), omega (arith, (observe_lem rest step).1))

count_up_lem :
    (adapters : Snapshot)
    → (count_up adapters ≤ length adapters)
      × ((count_up adapters == length adapters) ≡ all_up adapters)
count_up_lem [] = (omega arith, refl)
count_up_lem ((platform, true) ∷ rest) = let ih = count_up_lem rest in ground (arith, ih)
count_up_lem ((platform, false) ∷ rest) = let ih = count_up_lem rest in ground (arith, ih)

all_up_iff : (adapters : Snapshot) → (all_up adapters ≡ true) ↔ AllHealthy adapters
all_up_iff [] = (λ e. tt, λ u. refl)
all_up_iff ((platform, h) ∷ rest) = ground (arith, all_up_iff rest)

register_down : (key : Bytes) (s : Snapshot) → all_up (register_adapter key false s) ≡ false
unfolding register_adapter
register_down key [] = refl
register_down key ((k, h) ∷ s) = ground (arith, register_down key s)

-- The health endpoint answers 200 if every registered adapter is healthy and 503 if not; its body
-- lists the adapters as they are registered, with the same verdict as the health page. Once an
-- adapter is registered that is down, whether or not its key was there before, the answer is 503.
pub healthz_lem :
    (adapters : Snapshot) (key : Bytes)
    → let r = healthz adapters in
      ((r.0 ≡ 200) ↔ AllHealthy adapters)
      × ((r.0 ≡ 503) ↔ (¬ AllHealthy adapters))
      × (r.1.adapters ≡ adapters)
      × (r.1.ok ≡ (health_page adapters).ok)
      × ((healthz (register_adapter key false adapters)).0 ≡ 503)
unfolding healthz health_page
healthz_lem adapters key =
    let out : Body = record { ok = true; adapters = [] } in
    let page : HealthPage = record { ok = true; up = 0; total = 0; labels = [] } in
    let f = fill_lem adapters out in
    let g = observe_lem adapters page in
    let h = fill_lem (register_adapter key false adapters) out in
    (
      ground (arith, f.0, all_up_iff adapters),
      ground (arith, f.0, all_up_iff adapters),
      f.1,
      ground (arith, f.0, g.0, g.1, count_up_lem adapters),
      ground (arith, h.0, register_down key adapters),
    )
