-- ===== src/Device/Identity/Initialise/Notice.antt =====
-- The text of `NOTICE` in device.rs.
use distributed_jbod.Common.{[], ◌∷◌}
use distributed_jbod.Naming.{Text}

-- The text that tells a reader of the directory what it is.
abbrev pub notice : Text
notice =
    b'T' ∷ b'h' ∷ b'i' ∷ b's' ∷ b' ' ∷ b'd' ∷ b'i' ∷ b'r' ∷ b'e' ∷ b'c' ∷ b't' ∷ b'o' ∷ b'r' ∷ b'y'
    ∷ b' ' ∷ b'i' ∷ b's' ∷ b' ' ∷ b'a' ∷ b' ' ∷ b's' ∷ b't' ∷ b'o' ∷ b'r' ∷ b'a' ∷ b'g' ∷ b'e'
    ∷ b' ' ∷ b'd' ∷ b'e' ∷ b'v' ∷ b'i' ∷ b'c' ∷ b'e' ∷ b' ' ∷ b'o' ∷ b'f' ∷ b' ' ∷ b'D' ∷ b'i'
    ∷ b's' ∷ b't' ∷ b'r' ∷ b'i' ∷ b'b' ∷ b'u' ∷ b't' ∷ b'e' ∷ b'd' ∷ b'-' ∷ b'J' ∷ b'B' ∷ b'O'
    ∷ b'D' ∷ b',' ∷ b' ' ∷ b'a' ∷ b' ' ∷ b'd' ∷ b'i' ∷ b's' ∷ b't' ∷ b'r' ∷ b'i' ∷ b'b' ∷ b'u'
    ∷ b't' ∷ b'e' ∷ b'd' ∷ b' ' ∷ b'o' ∷ b'b' ∷ b'j' ∷ b'e' ∷ b'c' ∷ b't' ∷ b' ' ∷ b's' ∷ b't'
    ∷ b'o' ∷ b'r' ∷ b'e' ∷ b' ' ∷ b'(' ∷ b'h' ∷ b't' ∷ b't' ∷ b'p' ∷ b's' ∷ b':' ∷ b'/' ∷ b'/'
    ∷ b'g' ∷ b'i' ∷ b't' ∷ b'h' ∷ b'u' ∷ b'b' ∷ b'.' ∷ b'c' ∷ b'o' ∷ b'm' ∷ b'/' ∷ b'e' ∷ b'd'
    ∷ b'w' ∷ b'a' ∷ b'r' ∷ b'd' ∷ b'-' ∷ b'b' ∷ b'-' ∷ b'1' ∷ b'/' ∷ b'D' ∷ b'i' ∷ b's' ∷ b't'
    ∷ b'r' ∷ b'i' ∷ b'b' ∷ b'u' ∷ b't' ∷ b'e' ∷ b'd' ∷ b'-' ∷ b'J' ∷ b'B' ∷ b'O' ∷ b'D' ∷ b')'
    ∷ b'.' ∷ b' ' ∷ b'I' ∷ b't' ∷ b's' ∷ b' ' ∷ b'c' ∷ b'o' ∷ b'n' ∷ b't' ∷ b'e' ∷ b'n' ∷ b't'
    ∷ b's' ∷ b' ' ∷ b'a' ∷ b'r' ∷ b'e' ∷ b' ' ∷ b'm' ∷ b'a' ∷ b'n' ∷ b'a' ∷ b'g' ∷ b'e' ∷ b'd'
    ∷ b' ' ∷ b'b' ∷ b'y' ∷ b' ' ∷ b't' ∷ b'h' ∷ b'e' ∷ b' ' ∷ b'd' ∷ b'i' ∷ b's' ∷ b't' ∷ b'r'
    ∷ b'i' ∷ b'b' ∷ b'u' ∷ b't' ∷ b'e' ∷ b'd' ∷ b'-' ∷ b'j' ∷ b'b' ∷ b'o' ∷ b'd' ∷ b' ' ∷ b'n'
    ∷ b'o' ∷ b'd' ∷ b'e' ∷ b' ' ∷ b'p' ∷ b'r' ∷ b'o' ∷ b'c' ∷ b'e' ∷ b's' ∷ b's' ∷ b'.' ∷ b' '
    ∷ b'D' ∷ b'o' ∷ b' ' ∷ b'n' ∷ b'o' ∷ b't' ∷ b' ' ∷ b'a' ∷ b'd' ∷ b'd' ∷ b',' ∷ b' ' ∷ b'e'
    ∷ b'd' ∷ b'i' ∷ b't' ∷ b',' ∷ b' ' ∷ b'm' ∷ b'o' ∷ b'v' ∷ b'e' ∷ b',' ∷ b' ' ∷ b'o' ∷ b'r'
    ∷ b' ' ∷ b'd' ∷ b'e' ∷ b'l' ∷ b'e' ∷ b't' ∷ b'e' ∷ b' ' ∷ b'f' ∷ b'i' ∷ b'l' ∷ b'e' ∷ b's'
    ∷ b' ' ∷ b'h' ∷ b'e' ∷ b'r' ∷ b'e' ∷ b' ' ∷ b'b' ∷ b'y' ∷ b' ' ∷ b'h' ∷ b'a' ∷ b'n' ∷ b'd'
    ∷ b';' ∷ b' ' ∷ b'd' ∷ b'o' ∷ b'i' ∷ b'n' ∷ b'g' ∷ b' ' ∷ b's' ∷ b'o' ∷ b' ' ∷ b'c' ∷ b'a'
    ∷ b'n' ∷ b' ' ∷ b'd' ∷ b'e' ∷ b's' ∷ b't' ∷ b'r' ∷ b'o' ∷ b'y' ∷ b' ' ∷ b'd' ∷ b'a' ∷ b't'
    ∷ b'a' ∷ b' ' ∷ b't' ∷ b'h' ∷ b'a' ∷ b't' ∷ b' ' ∷ b'o' ∷ b't' ∷ b'h' ∷ b'e' ∷ b'r' ∷ b' '
    ∷ b'm' ∷ b'a' ∷ b'c' ∷ b'h' ∷ b'i' ∷ b'n' ∷ b'e' ∷ b's' ∷ b' ' ∷ b'd' ∷ b'e' ∷ b'p' ∷ b'e'
    ∷ b'n' ∷ b'd' ∷ b' ' ∷ b'o' ∷ b'n' ∷ b'.' ∷ b' ' ∷ b'T' ∷ b'o' ∷ b' ' ∷ b's' ∷ b't' ∷ b'o'
    ∷ b'p' ∷ b' ' ∷ b'u' ∷ b's' ∷ b'i' ∷ b'n' ∷ b'g' ∷ b' ' ∷ b't' ∷ b'h' ∷ b'i' ∷ b's' ∷ b' '
    ∷ b'd' ∷ b'i' ∷ b'r' ∷ b'e' ∷ b'c' ∷ b't' ∷ b'o' ∷ b'r' ∷ b'y' ∷ b' ' ∷ b'a' ∷ b's' ∷ b' '
    ∷ b'a' ∷ b' ' ∷ b'd' ∷ b'e' ∷ b'v' ∷ b'i' ∷ b'c' ∷ b'e' ∷ b',' ∷ b' ' ∷ b'd' ∷ b'r' ∷ b'a'
    ∷ b'i' ∷ b'n' ∷ b' ' ∷ b'a' ∷ b'n' ∷ b'd' ∷ b' ' ∷ b'r' ∷ b'e' ∷ b'm' ∷ b'o' ∷ b'v' ∷ b'e'
    ∷ b' ' ∷ b'i' ∷ b't' ∷ b' ' ∷ b't' ∷ b'h' ∷ b'r' ∷ b'o' ∷ b'u' ∷ b'g' ∷ b'h' ∷ b' ' ∷ b't'
    ∷ b'h' ∷ b'e' ∷ b' ' ∷ b'c' ∷ b'l' ∷ b'u' ∷ b's' ∷ b't' ∷ b'e' ∷ b'r' ∷ 39 ∷ b's' ∷ b' ' ∷ b'a'
    ∷ b'd' ∷ b'm' ∷ b'i' ∷ b'n' ∷ b'i' ∷ b's' ∷ b't' ∷ b'r' ∷ b'a' ∷ b't' ∷ b'i' ∷ b'v' ∷ b'e'
    ∷ b' ' ∷ b'c' ∷ b'o' ∷ b'm' ∷ b'm' ∷ b'a' ∷ b'n' ∷ b'd' ∷ b's' ∷ b'.' ∷ []
