-- ===== src/Imapsrv/Addresses/Tests.antt =====
-- Addresses of envelopes, and an instance of the theorem about them.
use imapped.Base.{◌≡◌, refl, [], ◌∷◌}
use imapped.Base.Text.{codes}
use imapped.Imapsrv.Addresses.{Address, to_address, to_addresses}

-- An address without brackets, one with, and one without a host.
three :
    to_addresses (codes " j@x " ∷ codes "Jo <j@x>" ∷ codes "root" ∷ [])
    ≡ record { name = []; mailbox = codes "j"; host = codes "x" }
      ∷ record { name = codes "Jo"; mailbox = codes "j"; host = codes "x" }
      ∷ record { name = []; mailbox = codes "root"; host = [] }
      ∷ []
unfolding to_addresses
three = refl

-- The quotes and the backslash of a stored name are still there.
kept_quotes : Address.name (to_address (codes "\"Doe, \\J\" <j@x>")) ≡ codes "\"Doe, \\J\""
unfolding to_address
kept_quotes = refl
