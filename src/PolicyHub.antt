-- ===== src/PolicyHub.antt =====
-- object/policyhub.go: the policy sets, one to a file; and controllers/policyhub.go: the gate that
-- decides whether a set may be enabled. The directory is given as what a read of a file returns.
pub mod Gate
pub mod Toggle
use casdoor_aiguard.Common.{
  ℕ, Bool, true, false, not, ◌&&◌, ◌||◌, Option, none, some, List, [], ◌∷◌, ◌++◌, if◌then◌else◌,
  any, eqb,
}
use casdoor_aiguard.Common.Dict.{Dict, lookup}
use casdoor_aiguard.Common.Text.{Str, ◌==◌, codes}

-- `osFamilies`
abbrev pub os_families : Dict Str
os_families =
    (codes "Windows", codes "Windows")
    ∷ (codes "macOS", codes "macOS")
    ∷ (codes "Ubuntu", codes "Linux")
    ∷ (codes "Debian", codes "Linux")
    ∷ (codes "CentOS", codes "Linux")
    ∷ (codes "RHEL", codes "Linux")
    ∷ (codes "Fedora", codes "Linux")
    ∷ (codes "Arch Linux", codes "Linux")
    ∷ (codes "openSUSE", codes "Linux")
    ∷ (codes "Alpine", codes "Linux")
    ∷ []

-- `osFamilyOf`
unfoldable pub os_family_of : Str → Str
unfolding lookup
os_family_of os = elim (lookup os os_families) [ some family ↦ family | none ↦ os ]

-- `HostOsFamily`, of `runtime.GOOS`
unfoldable pub host_os_family : Str → Str
unfolding ◌==◌
host_os_family goos =
    if goos == codes "windows"
    then codes "Windows"
    else if goos == codes "darwin"
    then codes "macOS"
    else codes "Linux"

-- `MatchesHostOs`
unfoldable pub matches_host_os : Str → Str → Bool
unfolding os_family_of host_os_family ◌==◌
matches_host_os goos set_os = os_family_of set_os == host_os_family goos

-- `PolicySet`, without the fields that are computed for each request.
pub record PolicySet : Type 0 where
  pub name : Str
  pub display_name : Str
  pub description : Str
  pub icon : Str
  pub author : Str
  pub strictness : Str
  pub agent : Str
  pub os : Str
  pub tags : List Str
  pub model : Str
  pub policy : Str
  pub request : Str

-- `interceptCapableAgents`
abbrev pub intercept_capable_agents : Dict Bool
intercept_capable_agents = (codes "OpenClaw", true) ∷ (codes "Claude Desktop", true) ∷ []

-- `IsInterceptCapableAgent`
unfoldable pub is_intercept_capable_agent : Str → Bool
unfolding lookup
is_intercept_capable_agent agent = elim (lookup agent intercept_capable_agents) [
  | some b ↦ b
  | none ↦ false
]

-- What reading and parsing a set's file comes to.
pub data HubFile : Type 0 where
  missing : HubFile
  unreadable : Str → HubFile
  parsed : PolicySet → HubFile

pub data GetResult : Type 0 where
  got : Option PolicySet → GetResult
  get_failed : Str → GetResult

-- `strings.ContainsAny(name, "/\\.")`
unfoldable pub has_path_byte : Str → Bool
unfolding any
has_path_byte name = any (λ c. eqb c b'/' || eqb c b'\\' || eqb c b'.') name

-- The end of `readPolicySet`: the file name is the identity.
unfoldable pub identify : Str → PolicySet → PolicySet
unfolding ◌==◌
identify name s = record s {
  name = name;
  display_name = if s.display_name == [] then name else s.display_name;
}

-- What `GetPolicySet` makes of the file.
unfoldable pub from_file : Str → HubFile → GetResult
unfolding identify
from_file name missing = got none
from_file name (unreadable e) = get_failed e
from_file name (parsed s) = got (some (identify name s))

-- `GetPolicySet`
unfoldable pub get_policy_set : (Str → HubFile) → Str → GetResult
unfolding from_file has_path_byte ◌==◌
get_policy_set hub name =
    if name == [] || has_path_byte name
    then get_failed (codes "invalid policy set name: " ++ name)
    else from_file name (hub name)
