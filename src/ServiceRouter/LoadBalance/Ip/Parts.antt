-- ===== src/ServiceRouter/LoadBalance/Ip/Parts.antt =====
-- `IpToInt` on dotted addresses.
use laser_db.Base.{ℕ, ◌+◌, ◌*◌, ◌^◌, ◌<◌, ◌≡◌, refl, ap, ◌∙◌, ◌≢◌, List, [], ◌∷◌, ◌++◌, arith, All}
use laser_db.Base.Int.{pos}
use laser_db.ServiceRouter.LoadBalance.Ip.{split, atoi, FloatTerm, IsExact, codes_to_int}

abbrev pub HasNoDot : List ℕ → Type 0
HasNoDot = All (λ c. c ≢ b'.')

split-whole : (sep : ℕ) (cs : List ℕ) → All (λ c. c ≢ sep) cs → split sep cs ≡ cs ∷ []
unfolding split
split-whole sep [] h = refl
split-whole sep (c ∷ cs) h = ground (arith, split-whole sep cs h.1)

-- A part with no separator, the separator, and the rest.
split-append :
    (sep : ℕ) (cs rest : List ℕ)
    → All (λ c. c ≢ sep) cs
    → split sep (cs ++ sep ∷ rest) ≡ cs ∷ split sep rest
unfolding split
split-append sep [] rest h = ground arith
split-append sep (c ∷ cs) rest h = ground (arith, split-append sep cs rest h.1)

abbrev pub dotted : List ℕ → List ℕ → List ℕ → List ℕ → List ℕ
dotted a b c d = a ++ b'.' ∷ (b ++ b'.' ∷ (c ++ b'.' ∷ d))

split-dotted :
    (a b c d : List ℕ)
    → HasNoDot a
    → HasNoDot b
    → HasNoDot c
    → HasNoDot d
    → split b'.' (dotted a b c d) ≡ a ∷ b ∷ c ∷ d ∷ []
split-dotted a b c d ha hb hc hd =
    split-append b'.' a _ ha
    ∙ ap (◌∷◌ a) (
        split-append b'.' b _ hb
        ∙ ap (◌∷◌ b) (split-append b'.' c _ hc ∙ ap (◌∷◌ c) (split-whole b'.' d hd)))

-- An address a.b.c.d with a below 128 and the other parts below 256 becomes
-- a * 2^24 + b * 2^16 + c * 2^8 + d, whatever the platform does with a float out of range.
pub codes_to_int-dotted :
    (term : FloatTerm) (a b c d : List ℕ) (m n o p : ℕ)
    → IsExact term
    → HasNoDot a
    → HasNoDot b
    → HasNoDot c
    → HasNoDot d
    → atoi a ≡ pos m
    → atoi b ≡ pos n
    → atoi c ≡ pos o
    → atoi d ≡ pos p
    → m < 128
    → n < 256
    → o < 256
    → p < 256
    → codes_to_int term (dotted a b c d) ≡ m * 2 ^ 24 + n * 2 ^ 16 + o * 2 ^ 8 + p
unfolding codes_to_int
codes_to_int-dotted term a b c d m n o p exact ha hb hc hd ea eb ec ed lm ln lo lp =
    rw
      (
        split-dotted a b c d ha hb hc hd,
        ea,
        eb,
        ec,
        ed,
        exact m 3 (omega arith),
        exact n 2 (omega arith),
        exact o 1 (omega arith),
        exact p 0 (omega arith),
      )
      (omega arith)
