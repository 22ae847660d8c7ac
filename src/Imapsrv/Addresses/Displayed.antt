-- ===== src/Imapsrv/Addresses/Displayed.antt =====
-- Addresses that were stored with a display name.
use imapped.Base.{[], ◌∷◌, ◌++◌, any, if◌then◌else◌}
use imapped.Base.Text.{Text}
use imapped.Syncer.Headers.{is_special, escape}
use imapped.Imapsrv.Sections.{trim_space}

-- What an envelope shows as the name of an address that was stored with one.
abbrev pub shown_name : Text → Text
shown_name name = if any is_special name then 34 ∷ (escape name ++ 34 ∷ []) else trim_space name
