-- ===== src/Util/Uri.antt =====
-- util/URI.cc and util/URI.h: the class URI. The first modules are its text, its parser and its
-- validators, then come the setters and normalizing, with their laws behind each.
pub mod Chars
pub mod Types
pub mod Search
pub mod Parse
pub mod Chain
pub mod PartsText
pub mod Compose
pub mod Percent
pub mod IpLiteral
pub mod Validate
pub mod Setters
pub mod Dots
pub mod Normalize
mod Tests
pub mod Pieces
pub mod Decode
pub mod Decodable
pub mod IpTexts
pub mod Marks
pub mod ValidTexts
pub mod Layout
pub mod TextLength
pub mod Sound
pub mod SetTypes
pub mod SetLaws
pub mod SetAuthority
pub mod ParseLayout
pub mod NormalizeLayout
pub mod ParseResult
pub mod NormalizeTotal
pub mod ParseTotal
pub mod DotLaws
pub mod DotSegments
pub mod DotTurns
pub mod DotsResolved
pub mod Query
pub mod QueryText
pub mod QueryLaws
pub mod IpLaws
pub mod SubsumeLaws
