-- ===== src/Bot/Reply/Texts.antt =====
-- What the texts of the replies say.
use espur.Base.{
  ℕ, ◌≡◌, refl, true, List, [], ◌∷◌, ◌++◌, Bytes, codes, contains, contains-append_right,
  has_prefix, has_prefix-append, All, All-map, arith,
}
use espur.Vendor.{PenalizedSnapshot}
use espur.Bot.Reply.{status_text, dashboard_text, vendor_lines, headline, drained_reply}

contains-append_left : (r s p : Bytes) → contains r p ≡ true → contains (r ++ s) p ≡ true
unfolding contains
contains-append_left [] [] p h = h
contains-append_left [] (c ∷ s) p h = ground (arith, has_prefix-append [] (c ∷ s) p)
contains-append_left (c ∷ r) s p h =
    ground (arith, contains-append_left r s p, has_prefix-append (c ∷ r) s p)

has_prefix_self : (s t : Bytes) → has_prefix (s ++ t) s ≡ true
unfolding has_prefix
has_prefix_self [] t = refl
has_prefix_self (c ∷ s) t = ground (arith, has_prefix_self s t)

prefix-contains : (s p : Bytes) → has_prefix s p ≡ true → contains s p ≡ true
unfolding contains
prefix-contains [] p h = h
prefix-contains (c ∷ s) p h = ground arith

abbrev Names : Bytes → PenalizedSnapshot → Type 0
Names text s = contains text (codes "- " ++ s.vendor_id) ≡ true

vendor_lines-Names :
    (snaps : List PenalizedSnapshot) (now : ℕ) → All (Names (vendor_lines snaps now)) snaps
unfolding vendor_lines
vendor_lines-Names [] now = tt
vendor_lines-Names (s ∷ snaps) now = (
  prefix-contains _ _ (
      has_prefix_self (codes "- " ++ s.vendor_id)
        (status_text s.status s.cooldown_until now ++ vendor_lines snaps now)),
  All-map (Names (vendor_lines snaps now)) _ snaps
      (λ t h.
        contains-append_right (codes "- ")
          (s.vendor_id ++ (status_text s.status s.cooldown_until now ++ vendor_lines snaps now))
          (codes "- " ++ t.vendor_id)
          (contains-append_right s.vendor_id
            (status_text s.status s.cooldown_until now ++ vendor_lines snaps now)
            (codes "- " ++ t.vendor_id)
            (contains-append_right (status_text s.status s.cooldown_until now)
              (vendor_lines snaps now) (codes "- " ++ t.vendor_id) h)))
      (vendor_lines-Names snaps now),
)

-- The reply of a run that found all vendors drained names each of the penalized vendors.
pub drained_reply-Names :
    (snaps : List PenalizedSnapshot) (dashboard_url : Bytes) (now : ℕ)
    → All
        (λ s. contains (drained_reply snaps dashboard_url now) (codes "- " ++ s.vendor_id) ≡ true)
        snaps
unfolding drained_reply
drained_reply-Names snaps dashboard_url now =
    All-map (Names (vendor_lines snaps now)) _ snaps
      (λ s h.
        contains-append_right (headline snaps)
          (vendor_lines snaps now ++ dashboard_text dashboard_url) (codes "- " ++ s.vendor_id)
          (contains-append_left (vendor_lines snaps now) (dashboard_text dashboard_url)
            (codes "- " ++ s.vendor_id) h))
      (vendor_lines-Names snaps now)
