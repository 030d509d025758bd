-- ===== src/ControlPlane/Failure.antt =====
-- One payload, sent again after its call failed.
use infrgate.Prelude.{◌≡◌, ◌⊎◌, true, false}
use infrgate.Prelude.Text.{Text}
use infrgate.Prelude.Error.{Error, throw}
use infrgate.Canonicalize.{Fields}
use infrgate.Fingerprint.{Platform}
use infrgate.Scorer.{Arithmetic}
use infrgate.ControlPlane.{InfrGateControlPlane, Times, Waits, rate_limit_error}
use infrgate.ControlPlane.Pipeline.{verdict, limited}

module _ {n : Arithmetic} {A : Type 0} (w w' : Waits n A) (t t' : Times) (platform : Platform)
    (id id' tenant tenant' key : Text) (payload : Fields) (p : InfrGateControlPlane n A) where
  -- the first call is over the limit, or its handler fails
  abbrev pub IsRefused : Error → Type 0
  IsRefused error =
      ((verdict w t platform id tenant key payload p).allowed ≡ false)
        × (error ≡ rate_limit_error (verdict w t platform id tenant key payload p).retry_after)
      ⊎ ((verdict w t platform id tenant key payload p).allowed ≡ true)
        × ((w.handler (limited w t platform id tenant key payload p)).0 ≡ throw error)
