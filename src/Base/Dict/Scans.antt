-- ===== src/Base/Dict/Scans.antt =====
-- What a scan of the values finds after a write. A dict keeps the order of insertion: a new key
-- comes last, and a key that is there keeps its place.
use uptime_platform.Base.Tests.{◌==◌, if◌then◌else◌}
use uptime_platform.Base.Lists.{find?}
use Prim.Native.Nat.{ℕ}
use mathlib.Core.Path.{◌≡◌, refl}
use mathlib.Core.Bool.{Bool}
use mathlib.Core.Option.{none, some}
use mathlib.Core.List.{[], ◌∷◌}
use native.Mathlib.Omega.{arith}
use uptime_platform.Base.Dict.Defs.{Dict, get, put, values}
use uptime_platform.Base.Dict.Values.{IsKeyed, get-find?}

module _ {ℓ} {V : Type ℓ} (p : V → Bool) where
  -- A new key hides nothing that the scan found.
  pub find?-put_new :
      (d : Dict V) (k : ℕ) (v w : V)
      → get d k ≡ none
      → find? p (values d) ≡ some w
      → find? p (values (put d k v)) ≡ some w
  unfolding find? get put
  find?-put_new [] k v w h e = cc
  find?-put_new ((j, x) ∷ d) k v w h e = ground (arith, find?-put_new d k v w)

  -- Where the scan found nothing it finds the new object, if that passes.
  pub find?-put_first :
      (d : Dict V) (k : ℕ) (v : V)
      → get d k ≡ none
      → find? p (values d) ≡ none
      → find? p (values (put d k v)) ≡ (if p v then some v else none)
  unfolding find? get put
  find?-put_first [] k v h e = refl
  find?-put_first ((j, x) ∷ d) k v h e = ground (arith, find?-put_first d k v)

  -- An object that is replaced by one of its key that passes as it did keeps its place in the scan.
  pub find?-put_at :
      (id : V → ℕ) (d : Dict V) (k : ℕ) (v w x : V)
      → IsKeyed id d
      → get d k ≡ some x
      → p v ≡ p x
      → find? p (values d) ≡ some w
      → find? p (values (put d k v)) ≡ (if id w == k then some v else some w)
  unfolding find? get put
  find?-put_at id [] k v w x h g same e = cc
  find?-put_at id ((j, y) ∷ d) k v w x h g same e =
      ground (arith, find?-put_at id d k v w x (h.2), get-find? id p d {v = w} (h.2))
