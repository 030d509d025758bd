-- ===== src/AnimatedNoise/Noise.antt =====
-- What `generateNoise` puts on the canvas.
use infrgate.Prelude.{
  ℕ, zero, suc, ◌+◌, ◌*◌, ◌≡◌, ◌<◌, refl, sym, ◌∙◌, ap, false, some, List, [], ◌∷◌, ◌++◌, arith,
  length, length-append, lt→ltb, ltb,
}
use mathlib.Core.List.{append_assoc}
use infrgate.AnimatedNoise.{Browser, IsBrowser, store, write_pixel, noise_loop, generate_noise}

-- the bytes of `n` opaque grey pixels, by the draws from `k` on
abbrev pub greys : Browser → (ℕ → ℕ) → ℕ → ℕ → List ℕ
greys b draws k zero = []
greys b draws k (suc n) =
    b.clamped (draws k) ∷ b.clamped (draws k) ∷ b.clamped (draws k) ∷ 255 ∷ greys b draws (suc k) n

store-append :
    (done rest : List ℕ) (i j v : ℕ)
    → i ≡ length done + j
    → store i v (done ++ rest) ≡ done ++ store j v rest
unfolding store
store-append [] rest i j v e = let same : i ≡ j = omega (arith, e) in ap (λ n. store n v rest) same
store-append (x ∷ done) rest zero j v e = absurd (omega (arith, e))
store-append (x ∷ done) rest (suc i) j v e =
    ap (λ r. x ∷ r) (store-append done rest i j v (omega (arith, e)))

abbrev pixel : ℕ → List ℕ
pixel v = v ∷ v ∷ v ∷ 255 ∷ []

write_pixel-append :
    (done rest : List ℕ) (a b c d i v : ℕ)
    → i ≡ length done
    → write_pixel i v (done ++ (a ∷ b ∷ c ∷ d ∷ rest)) ≡ (done ++ pixel v) ++ rest
unfolding write_pixel store
write_pixel-append done rest a b c d i v e =
    rw (store-append done (a ∷ b ∷ c ∷ d ∷ rest) i 0 v (omega (arith, e))) (
      rw (store-append done (v ∷ b ∷ c ∷ d ∷ rest) (i + 1) 1 v (omega (arith, e))) (
        rw (store-append done (v ∷ v ∷ c ∷ d ∷ rest) (i + 2) 2 v (omega (arith, e))) (
          store-append done (v ∷ v ∷ v ∷ d ∷ rest) (i + 3) 3 255 (omega (arith, e))
          ∙ sym (append_assoc done (pixel v) rest))))

-- a list of four bytes for each pixel
data Pixels : ℕ → List ℕ → Type 0 where
  no_pixels : Pixels 0 []
  one_more :
      (n : ℕ) (a b c d : ℕ) (rest : List ℕ) → Pixels n rest → Pixels (suc n) (a ∷ b ∷ c ∷ d ∷ rest)

length-Pixels : (n : ℕ) (bytes : List ℕ) → length bytes ≡ 4 * n → Pixels n bytes
length-Pixels zero [] e = no_pixels
length-Pixels zero (a ∷ bytes) e = absurd (omega (arith, e))
length-Pixels (suc n) [] e = absurd (omega (arith, e))
length-Pixels (suc n) (a ∷ []) e = absurd (omega (arith, e))
length-Pixels (suc n) (a ∷ b ∷ []) e = absurd (omega (arith, e))
length-Pixels (suc n) (a ∷ b ∷ c ∷ []) e = absurd (omega (arith, e))
length-Pixels (suc n) (a ∷ b ∷ c ∷ d ∷ rest) e =
    one_more n a b c d rest (length-Pixels n rest (omega (arith, e)))

noise_loop-append :
    (b : Browser) (draws : ℕ → ℕ) (fuel k n i : ℕ) (done rest : List ℕ)
    → Pixels n rest
    → n < fuel
    → i ≡ length done
    → noise_loop b draws fuel k i (done ++ rest) ≡ some (done ++ greys b draws k n)
unfolding noise_loop
noise_loop-append b draws zero k n i done rest p enough at = absurd (omega (arith, enough))
noise_loop-append b draws (suc fuel) k zero i done (_ ∷ _) p enough at = elim p [ ]
noise_loop-append b draws (suc fuel) k zero i done [] no_pixels enough at =
    let complete : ltb i (length (done ++ [])) ≡ false =
      ground (arith, at, length-append done []) in
    rw complete refl
noise_loop-append b draws (suc fuel) k (suc n) i done bytes (one_more _ x y z w rest p) enough at =
    let v = b.clamped (draws k) in
    let within =
      lt→ltb i (length (done ++ (x ∷ y ∷ z ∷ w ∷ rest)))
        (omega (arith, at, length-append done (x ∷ y ∷ z ∷ w ∷ rest))) in
    rw within (
      rw (write_pixel-append done rest x y z w i v at) (
        noise_loop-append b draws fuel (suc k) n (i + 4) (done ++ pixel v) rest p
          (omega (arith, enough)) (omega (arith, at, length-append done (pixel v)))
        ∙ ap some (append_assoc done (pixel v) (greys b draws (suc k) n))))

-- On a canvas that has pixels, the noise is complete: it gives each pixel one draw, as an opaque grey, in
-- the order of the draws, and leaves no pixel out.
pub generate_noise_lem :
    (b : Browser) (laws : IsBrowser b) (draws : ℕ → ℕ) (w h : ℕ)
    → generate_noise b draws (suc w) (suc h) ≡ some (greys b draws 0 (suc w * suc h))
unfolding generate_noise
generate_noise_lem b laws draws w h =
    let bytes = laws.image_data (suc w) (suc h) in
    let size = laws.length-image_data (suc w) (suc h) in
    rw (laws.create_image_data-suc w h, generate_noise)
      (noise_loop-append b draws (suc (length bytes)) 0 (suc w * suc h) 0 [] bytes
        (length-Pixels (suc w * suc h) bytes size) (omega (arith, size)) refl)
