-- ===== src/Registry/Host/Tests.antt =====
-- A wildcard at work.
use shortfall.Prelude.{◌≡◌, ◌↔◌, true, codes, [], ◌∷◌}
use shortfall.Registry.Host.{host_allowed, valid_host_shape}
use shortfall.Registry.Host.Allowed.{SomeAllows, host_allowed_iff}

host_allowed_iff_example :
    (host_allowed (λ s. s) (codes "*.pay.example" ∷ []) (codes "api.pay.example") ≡ true) ↔ (
      (valid_host_shape (codes "api.pay.example") ≡ true)
      × SomeAllows (codes "*.pay.example" ∷ []) (codes "api.pay.example"))
host_allowed_iff_example =
    host_allowed_iff (λ s. s) (codes "*.pay.example" ∷ []) (codes "api.pay.example")
