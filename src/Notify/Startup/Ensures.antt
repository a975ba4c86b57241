-- ===== src/Notify/Startup/Ensures.antt =====
-- The consumer group at the start.
use sd_practice_qr_code_gene.Base.{true, ◌≡◌, refl, ◌∙◌, ap, inl, inr, Bool-cases}
use sd_practice_qr_code_gene.Notify.Queue.{Stream, critical_stream, delivery_stream}
use sd_practice_qr_code_gene.Notify.Startup.{Groups, ensure_on, ensure_group}

module _ (G : Groups) where
  ensure_on-has :
      (s : G.State) (k : Stream)
      → (G.has_group (ensure_on G s k) k ≡ true)
        × ((j : Stream) → G.has_group s j ≡ true → G.has_group (ensure_on G s k) j ≡ true)
  unfolding ensure_on
  ensure_on-has s k = elim (Bool-cases (G.has_group s k)) [
    | inl there ↦ rw (G.create_refused s k there, ensure_on) (there, λ j h. h)
    | inr missing ↦
        let (s', made, own, others) = G.create_made s k missing in
        rw (made, ensure_on) (own, others)
  ]

  ensure_on-there : (s : G.State) (k : Stream) → G.has_group s k ≡ true → ensure_on G s k ≡ s
  unfolding ensure_on
  ensure_on-there s k h = rw (G.create_refused s k h, ensure_on) refl

-- Whatever groups there are at the start, then both streams have the group, and a second call, of
-- the API or of any worker, changes nothing.
pub ensure_group-ensure_group :
    (G : Groups) (s : G.State)
    → (G.has_group (ensure_group G s) critical_stream ≡ true)
      × (G.has_group (ensure_group G s) delivery_stream ≡ true)
      × (ensure_group G (ensure_group G s) ≡ ensure_group G s)
unfolding ensure_group
ensure_group-ensure_group G s =
    let first = ensure_on G s delivery_stream in
    let (own, others) = ensure_on-has G first critical_stream in
    let normal = others delivery_stream (ensure_on-has G s delivery_stream).0 in
    let last = ensure_on G first critical_stream in
    (
      own,
      normal,
      ap (λ t. ensure_on G t critical_stream) (ensure_on-there G last delivery_stream normal)
          ∙ ensure_on-there G last critical_stream own,
    )
