-- ===== src/Server/Dismissing.antt =====
-- The end of a server's `_stop`: `worker->stop(); worker->join();` for each worker in turn.
use rtc_frameworker.Prelude.{◌≡◌, refl, suc, ap, List, [], ◌∷◌, Option, some, length}
use rtc_frameworker.Server.Receive.{◌>>=◌}

module _ {W : Type 0} where
  -- All items of a list.
  abbrev pub Each : (W → Type 0) → List W → Type 0
  Each P [] = Unit
  Each P (w ∷ ws) = P w × Each P ws

  pub Each-map : (P Q : W → Type 0) → ((w : W) → P w → Q w) → (ws : List W) → Each P ws → Each Q ws
  Each-map P Q f [] all = tt
  Each-map P Q f (w ∷ ws) (p, all) = (f w p, Each-map P Q f ws all)

module _ {W : Type 0} (stop : W → W) (run : W → Option W) (join : W → Option W) where
  -- `run` is what a worker's thread does from then on, until it ends. `none` is a fault, or a
  -- thread that does not end, for which `join` waits for ever.
  unfoldable pub dismiss : List W → Option (List W)
  dismiss [] = some []
  dismiss (w ∷ ws) =
      let rest = dismiss ws in
      run (stop w) >>= (λ v. join v >>= (λ v'. rest >>= (λ vs. some (v' ∷ vs))))

  -- Workers that each end when they are told to are all dismissed.
  pub dismiss-Each :
      (Ready Gone : W → Type 0)
      → ((w : W)
          → Ready w
          → (v : W) × (v' : W) × (run (stop w) ≡ some v) × (join v ≡ some v') × Gone v')
      → (ws : List W) → Each Ready ws
      → (vs : List W) × (dismiss ws ≡ some vs) × (length vs ≡ length ws) × Each Gone vs
  unfolding dismiss
  dismiss-Each Ready Gone ends [] all = ([], refl, refl, tt)
  dismiss-Each Ready Gone ends (w ∷ ws) (ready, all) =
      let (v, v', e, f, gone) = ends w ready in
      let (vs, g, l, each) = dismiss-Each Ready Gone ends ws all in
      (v' ∷ vs, rw (e, f, g) refl, ap suc l, (gone, each))
