-- ===== src/Core/Controls/Swallowed.antt =====
-- What a command for the operating system takes with it (web/src/lib/terminalText.ts).
use ephemeral_sandbox_consol.Base.{◌≡◌, false, nat_eq, All, Text}

-- No BEL.
abbrev pub IsUnbelled : Text → Type 0
IsUnbelled = All (λ c. nat_eq c 7 ≡ false)
