-- ===== src/Execute/Session.antt =====
-- The backstop of the write session: `ConfigSession.screen` of apps/api/app/execute/session.py.
use zero_node.Prelude.{
  ℕ, Bool, true, false, not, ◌&&◌, ◌||◌, Option, none, some, List, [], ◌∷◌, is_empty, ◌==◌,
}
use zero_node.Prelude.Text.{
  Text, codes, text_eq, is_word, is_number, lower, strip, split_on, contains_text,
}

abbrev pub forbidden : List Text
forbidden =
    codes "reload"
    ∷ codes "erase"
    ∷ codes "format"
    ∷ codes "delete"
    ∷ codes "boot "
    ∷ codes "shutdown"
    ∷ codes "clear config"
    ∷ codes "write erase"
    ∷ codes "copy "
    ∷ codes "username"
    ∷ codes "aaa "
    ∷ codes "crypto "
    ∷ []

abbrev name_code : ℕ → Bool
name_code c = is_word c || c == 46 || c == 58 || c == 45

abbrev all_name : Text → Bool
all_name [] = true
all_name (c ∷ s) = name_code c && all_name s

abbrev safe_words : List Text → Bool
safe_words (a ∷ b ∷ d ∷ e ∷ name ∷ f ∷ g ∷ h ∷ n ∷ []) =
    text_eq (lower a) (codes "delete")
    && text_eq b (codes "/")
    && text_eq (lower d) (codes "acl")
    && text_eq (lower e) (codes "acl-filter")
    && not (is_empty name)
    && all_name name
    && text_eq (lower f) (codes "type")
    && text_eq (lower g) (codes "ipv4")
    && text_eq (lower h) (codes "entry")
    && is_number n
safe_words _ = false

-- `SAFE_SRL_ACL_DELETE.fullmatch`: nine words with one blank between them.
pub is_safe_delete : Text → Bool
is_safe_delete text = safe_words (split_on 32 text)

-- The first forbidden word that makes `screen` raise.
pub offence : List Text → Text → Option Text
offence [] command = none
offence (word ∷ words) command =
    elim (contains_text (lower command) word
      && not (text_eq word (codes "delete") && is_safe_delete (strip command))) [
        | true ↦ some word
        | false ↦ offence words command
      ]

-- The command and the word of `UnsafeCommand`, if it is raised.
pub screen : List Text → Option (Text × Text)
screen [] = none
screen (command ∷ commands) = elim (offence forbidden command) [
  | some word ↦ some (command, word)
  | none ↦ screen commands
]
