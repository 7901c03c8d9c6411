-- ===== src/Tests/Settings.antt =====
-- configuration: one stanza with a single remote and a single user.
use restreamer.Prelude.{◌≡◌, some, refl, [], ◌∷◌, Option, some, Text, codes}
use restreamer.Configuration.{
  Resource, Configuration, default_configuration, normalize, load_configuration,
}
use restreamer.Configuration.Normal.{IsNormal, HasLists, load_configuration-IsNormal}

abbrev stanza : Resource
stanza = record {
  type = codes "stream";
  api = [];
  serve = codes "/s";
  remote = codes "a";
  remotes = codes "b" ∷ [];
  client_interface = [];
  cache = 0;
  authentication = record {
    type = codes "basic";
    realm = [];
    user = codes "u";
    users = codes "v" ∷ [];
  };
  mru = 0;
  preamble = [];
}

-- A decoder that knows one text.
abbrev decode : Configuration → Text → Option Configuration
decode c text = some (record c { resources = stanza ∷ [] })

abbrev loaded : Configuration
loaded = normalize (record default_configuration { resources = stanza ∷ [] })

load_configuration-IsNormal_example :
    IsNormal loaded
    × ((d : Configuration) × (decode default_configuration [] ≡ some d) × HasLists d loaded)
unfolding load_configuration
load_configuration-IsNormal_example = load_configuration-IsNormal decode [] refl
