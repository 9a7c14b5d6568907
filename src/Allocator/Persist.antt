-- ===== src/Allocator/Persist.antt =====
-- crates/otp-book/src/allocator.rs, `persist_pair`: what both copies hold after it.
use jbuu.Base.{◌≡◌, ◌∙◌, subst, Bool}
use jbuu.Base.Result.{Result, ok, err}
use jbuu.Base.State.{◌>>◌}
use jbuu.Base.Actions.{Ends-at, Then, Ends->>=, Post, Ends, Ends-step, Ends-cases, Ends-mono}
use jbuu.Base.Bytes.{Bytes}
use jbuu.Anchor.{AnchorRecord}
use jbuu.Anchor.Decide.{AnchorCopy, copy_a, copy_b, exchange_copy}
use jbuu.Anchor.Wire.{Sha256, encoded, encode_record}
use jbuu.Allocator.Interfaces.{MediaError, Boundary, AnchorMedia, IsDurable}
use jbuu.Allocator.Transaction.{Points, points_a, points_b, persist_copy, persist_pair}

module _ {M : Type 0} (media : AnchorMedia M) (durable : IsDurable media) where
  open durable use {stored, pending}

  -- The laws of the medium, at the state that an answer comes with.
  pub boundary_keeps :
      (b : Boundary) (m t : M) (r : Result (Unit {0}) MediaError) (c : AnchorCopy)
      → media.boundary b m ≡ (r, t)
      → (stored t c ≡ stored m c) × (pending t c ≡ pending m c)
  boundary_keeps b m t r c e =
      subst
        (λ (p : Result (Unit {0}) MediaError × M).
          (stored p.1 c ≡ stored m c) × (pending p.1 c ≡ pending m c))
        e (durable.boundary_stored b m c, durable.boundary_pending b m c)

  write_keeps :
      (c : AnchorCopy) (bs : Bytes) (m t : M) (r : Result (Unit {0}) MediaError)
      → media.write c bs m ≡ (r, t)
      → stored t (exchange_copy c) ≡ stored m (exchange_copy c)
  write_keeps c bs m t r e =
      subst
        (λ (p : Result (Unit {0}) MediaError × M).
          stored p.1 (exchange_copy c) ≡ stored m (exchange_copy c))
        e (durable.write_other c bs m)

  sync_keeps :
      (c : AnchorCopy) (m t : M) (r : Result (Unit {0}) MediaError)
      → media.sync c m ≡ (r, t)
      → stored t (exchange_copy c) ≡ stored m (exchange_copy c)
  sync_keeps c m t r e =
      subst
        (λ (p : Result (Unit {0}) MediaError × M).
          stored p.1 (exchange_copy c) ≡ stored m (exchange_copy c))
        e (durable.sync_other c m)

  module _ (sha : Sha256) (r : AnchorRecord) where
    -- After `persist_copy`: the copy holds the record, if it succeeds; the other copy is as before.
    abbrev pub Persisted : AnchorCopy → Bytes → Post M MediaError (Unit {0})
    Persisted c other (ok _) t = (stored t c ≡ encoded sha r) × (stored t (exchange_copy c) ≡ other)
    Persisted c other (err _) t = stored t (exchange_copy c) ≡ other

    pub persist_copy-Persisted :
        (c : AnchorCopy) (points : Points) (m : M)
        → Ends (persist_copy sha media r c points) m (Persisted c (stored m (exchange_copy c)))
    unfolding persist_copy encode_record
    persist_copy-Persisted c points m =
        let o = exchange_copy c in
        let Q = Persisted c (stored m o) in
        Ends-step (media.boundary points.0) _ m Q
          (λ _ m1 e1.
            Ends-step (media.write c (encoded sha r)) _ m1 Q
              (λ _ m2 e2.
                written points m1 m2 (durable.write_pending c (encoded sha r) m1 m2 e2)
                  (write_keeps c _ m1 m2 _ e2 ∙ (boundary_keeps points.0 m m1 _ o e1).0))
              (λ _ m2 e2. write_keeps c _ m1 m2 _ e2 ∙ (boundary_keeps points.0 m m1 _ o e1).0))
          (λ _ m1 e1. (boundary_keeps points.0 m m1 _ o e1).0)
      where
        -- The four steps behind the write.
        written :
            (points : Points) (m1 m2 : M)
            → pending m2 c ≡ encoded sha r
            → stored m2 (exchange_copy c) ≡ stored m (exchange_copy c)
            → Ends
                (media.boundary points.1
                  >> (media.boundary points.2 >> (media.sync c >> media.boundary points.3)))
                m2
                (Persisted c (stored m (exchange_copy c)))
        written points m1 m2 p h =
            let o = exchange_copy c in
            let Q = Persisted c (stored m o) in
            Ends-step (media.boundary points.1) _ m2 Q
              (λ _ m3 e3.
                let h3 = (boundary_keeps points.1 m2 m3 _ o e3).0 ∙ h in
                let p3 = (boundary_keeps points.1 m2 m3 _ c e3).1 ∙ p in
                Ends-step (media.boundary points.2) _ m3 Q
                  (λ _ m4 e4.
                    let h4 = (boundary_keeps points.2 m3 m4 _ o e4).0 ∙ h3 in
                    let p4 = (boundary_keeps points.2 m3 m4 _ c e4).1 ∙ p3 in
                    Ends-step (media.sync c) _ m4 Q
                      (λ _ m5 e5.
                        let h5 = sync_keeps c m4 m5 _ e5 ∙ h4 in
                        let s5 = durable.sync_stored c m4 m5 e5 ∙ p4 in
                        Ends-cases (media.boundary points.3) m5 Q
                          (λ _ m6 e6. (
                            (boundary_keeps points.3 m5 m6 _ c e6).0 ∙ s5,
                            (boundary_keeps points.3 m5 m6 _ o e6).0 ∙ h5,
                          ))
                          (λ _ m6 e6. (boundary_keeps points.3 m5 m6 _ o e6).0 ∙ h5))
                      (λ _ m5 e5. sync_keeps c m4 m5 _ e5 ∙ h4))
                  (λ _ m4 e4. (boundary_keeps points.2 m3 m4 _ o e4).0 ∙ h3))
              (λ _ m3 e3. (boundary_keeps points.1 m2 m3 _ o e3).0 ∙ h)

    -- Both copies hold the record if `persist_pair` succeeds; nothing is said if it fails.
    abbrev BothPersisted : Post M MediaError (Unit {0})
    BothPersisted (ok _) t = (c : AnchorCopy) → stored t c ≡ encoded sha r
    BothPersisted (err _) t = Unit {0}

    both :
        (t : M)
        → stored t copy_a ≡ encoded sha r
        → stored t copy_b ≡ encoded sha r
        → (c : AnchorCopy) → stored t c ≡ encoded sha r
    both t a b copy_a = a
    both t a b copy_b = b

    persist_pair-BothPersisted :
        (intent : Bool) (m : M) → Ends (persist_pair sha media r intent) m BothPersisted
    unfolding persist_pair
    persist_pair-BothPersisted intent m =
        Ends->>= (persist_copy sha media r copy_a (points_a intent)) _ m BothPersisted (
          Ends-mono (persist_copy sha media r copy_a (points_a intent)) m
            (Persisted copy_a (stored m copy_b)) (Then _ BothPersisted) first
            (persist_copy-Persisted copy_a (points_a intent) m))
      where
        second :
            (t : M)
            → stored t copy_a ≡ encoded sha r
            → (x : Result (Unit {0}) MediaError) (u : M) → Persisted copy_b (stored t copy_a) x u
            → BothPersisted x u
        second t h (ok _) u (b, a) = both u (a ∙ h) b
        second t h (err _) u _ = tt

        first :
            (x : Result (Unit {0}) MediaError) (t : M)
            → Persisted copy_a (stored m copy_b) x t
            → Then (λ _. persist_copy sha media r copy_b (points_b intent)) BothPersisted x t
        first (ok _) t h =
            Ends-mono (persist_copy sha media r copy_b (points_b intent)) t
              (Persisted copy_b (stored t copy_a)) BothPersisted (second t h.0)
              (persist_copy-Persisted copy_b (points_b intent) t)
        first (err _) t h = tt

    pub persist_pair-stored :
        (intent : Bool) (m : M) {a : Unit {0}} {t : M}
        → persist_pair sha media r intent m ≡ (ok a, t)
        → (c : AnchorCopy) → stored t c ≡ encoded sha r
    persist_pair-stored intent m e =
        Ends-at (persist_pair sha media r intent) m BothPersisted e
          (persist_pair-BothPersisted intent m)
