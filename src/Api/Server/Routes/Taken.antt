-- ===== src/Api/Server/Routes/Taken.antt =====
-- That internal/api/server.go registers a path twice.
use gi_con_mon.Common.{◌≡◌, refl, none, arith, Option-cases, inl, inr}
use gi_con_mon.Api.Server.Routes.{
  Router, IsRouter, get_route, ui, index, register_routes, register_all,
}

module _ (R : Router) (gin : IsRouter R) (s : R.State) where
  -- Whatever the router holds before, `registerRoutes` panics: it registers GET / a second time.
  pub register_routes-none : register_routes R s ≡ none
  unfolding register_routes register_all
  register_routes-none = elim (Option-cases (R.handle (get_route "/" ui) s)) [
    | inl refused ↦ rw (refused, register_all) refl
    | inr (s1, first) ↦
        rw (first, register_all)
          (elim (Option-cases (R.handle (get_route "/app.js" ui) s1)) [
            | inl refused ↦ rw (refused, register_all) refl
            | inr (s2, second) ↦
                rw (second, register_all)
                  (rw
                    (gin.handle-taken (get_route "/" index) s2 (
                      ground (
                        arith,
                        gin.has-handle (get_route "/" ui) s s1 "GET" "/" first,
                        gin.has-handle (get_route "/app.js" ui) s1 s2 "GET" "/" second,
                      )))
                    refl)
          ])
  ]
