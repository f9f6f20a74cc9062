-- ===== src/Environment.antt =====
-- The environment variables of a process, as `os.getenv` reads them.
use cloud_commander.Prelude.{Option, none, some, [], ◌∷◌}
use cloud_commander.Text.{Text}

-- `os.getenv(name)`
abbrev pub Env : Type 0
Env = Text → Option Text

-- `os.getenv(name, default)`
abbrev pub getenv_or : Option Text → Text → Text
getenv_or none default = default
getenv_or (some value) default = value

-- `a or b` for texts that may be missing
abbrev pub or_else : Option Text → Option Text → Option Text
or_else none other = other
or_else (some []) other = other
or_else (some (c ∷ s)) other = some (c ∷ s)
