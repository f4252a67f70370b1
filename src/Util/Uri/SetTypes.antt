-- ===== src/Util/Uri/SetTypes.antt =====
-- util/URI.cc: what the setters promise.
use oasys.Base.{ℕ, ◌≡◌, List, [], ◌∷◌, Option, some}
use oasys.Util.Uri.Types.{parse_ok, Component, Uri, text}
use oasys.Util.Uri.Setters.{splice}
use oasys.Util.Uri.Layout.{IsLaidOut}

-- The components that `v` has with the texts that `u` has.
abbrev pub Keeps : Uri → Uri → List (Uri → Component) → Type 0
Keeps u v [] = Unit {0}
Keeps u v (part ∷ parts) = (text v.uri (part v) ≡ text u.uri (part u)) × Keeps u v parts

-- What a setter makes of a URI.
abbrev pub IsUpdated :
    (Uri → Component) → List (Uri → Component) → List ℕ → Uri → Option Uri → Type 0
IsUpdated part others t u result =
    (v : Uri) × (result ≡ some v)
    × IsLaidOut v
    × (v.parse_err ≡ parse_ok)
    × (text v.uri (part v) ≡ t)
    × (v.uri ≡ splice u.uri (part u) t)
    × Keeps u v others

abbrev pub scheme_part : Uri → Component
scheme_part u = u.scheme

abbrev pub authority_part : Uri → Component
authority_part u = u.authority

abbrev pub userinfo_part : Uri → Component
userinfo_part u = u.userinfo

abbrev pub host_part : Uri → Component
host_part u = u.host

abbrev pub port_part : Uri → Component
port_part u = u.port

abbrev pub path_part : Uri → Component
path_part u = u.path

abbrev pub query_part : Uri → Component
query_part u = u.query

abbrev pub fragment_part : Uri → Component
fragment_part u = u.fragment

-- The components besides one, without those that hold it.
abbrev pub besides_path : List (Uri → Component)
besides_path =
    scheme_part ∷ authority_part ∷ userinfo_part ∷ host_part ∷ port_part ∷ query_part
    ∷ fragment_part ∷ []

abbrev pub besides_query : List (Uri → Component)
besides_query =
    scheme_part ∷ authority_part ∷ userinfo_part ∷ host_part ∷ port_part ∷ path_part ∷ fragment_part
    ∷ []

abbrev pub besides_fragment : List (Uri → Component)
besides_fragment =
    scheme_part ∷ authority_part ∷ userinfo_part ∷ host_part ∷ port_part ∷ path_part ∷ query_part
    ∷ []

abbrev pub besides_host : List (Uri → Component)
besides_host = scheme_part ∷ userinfo_part ∷ port_part ∷ path_part ∷ query_part ∷ fragment_part ∷ []

abbrev pub besides_userinfo : List (Uri → Component)
besides_userinfo = scheme_part ∷ host_part ∷ port_part ∷ path_part ∷ query_part ∷ fragment_part ∷ []
