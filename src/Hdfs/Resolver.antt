-- ===== src/Hdfs/Resolver.antt =====
-- HdfsNamenodeResolver of dataset_toolkit/hdfs/namenode.py. The site files are read by an XML
-- parser, and URLs by `urlparse`: both are parameters.
use code_assist_analyzer.Prelude.{
  Option, none, some, List, [], ◌∷◌, String, string_eq, if◌then◌else◌, Result, ok, raise,
  runtime_error, io_error, ◌>>=◌,
}
use code_assist_analyzer.Prelude.Dict.{Dict, get, put}
use code_assist_analyzer.Prelude.Text.{join, split, is_truthy}

abbrev pub Configuration : Type 0
Configuration = Dict String String

-- what parsing a site file gives: the names and values of its properties, or an exception
pub data SiteXml : Type 0 where
  properties : List (String × String) → SiteXml
  parse_error : SiteXml
  no_file : SiteXml

pub record Resolver : Type 0 where
  pub hadoop_env : Option String
  pub hadoop_path : Option String
  pub hadoop_configuration : Configuration

-- the loop of `_load_site_xml_into_dict`
pub put_properties : List (String × String) → Configuration → Configuration
put_properties [] in_dict = in_dict
put_properties ((name, value) ∷ rest) in_dict = put_properties rest (put name value in_dict)

-- A file that does not parse is logged, and one that cannot be opened raises.
pub load_site_xml_into_dict : SiteXml → Configuration → Result Configuration
unfolding put_properties
load_site_xml_into_dict (properties props) in_dict = ok (put_properties props in_dict)
load_site_xml_into_dict parse_error in_dict = ok in_dict
load_site_xml_into_dict no_file in_dict = raise io_error

-- the loop over the names of environment variables: the first that is set
pub first_env : List String → Dict String String → Option (String × String)
first_env [] environ = none
first_env (env ∷ envs) environ = elim (get env environ) [
  | none ↦ first_env envs environ
  | some path ↦ some (env, path)
]

abbrev pub hadoop_envs : List String
hadoop_envs = "HADOOP_HOME" ∷ "HADOOP_PREFIX" ∷ "HADOOP_INSTALL" ∷ []

pub init : (String → SiteXml) → Dict String String → Option Configuration → Result Resolver
unfolding first_env load_site_xml_into_dict join
init parse environ (some configuration) =
    ok (record { hadoop_env = none; hadoop_path = none; hadoop_configuration = configuration })
init parse environ none = elim (first_env hadoop_envs environ) [
  | none ↦ ok (record { hadoop_env = none; hadoop_path = none; hadoop_configuration = [] })
  | some (env, path) ↦ do
    hdfs ← load_site_xml_into_dict (parse (join (path ∷ "/etc/hadoop/hdfs-site.xml" ∷ []))) []
    core ← load_site_xml_into_dict (parse (join (path ∷ "/etc/hadoop/core-site.xml" ∷ []))) hdfs
    ok (record { hadoop_env = some env; hadoop_path = some path; hadoop_configuration = core })
]

-- `d.get(key)` where an absent key and an empty text are alike
abbrev pub truthy : Option String → Option String
truthy none = none
truthy (some s) = if is_truthy s then some s else none

pub rpc_address_key : String → String → String
unfolding join
rpc_address_key namespace nn = join ("dfs.namenode.rpc-address." ∷ namespace ∷ "." ∷ nn ∷ [])

-- the loop over the name nodes of a name service
pub namenode_urls : Configuration → String → List String → Result (List String)
unfolding rpc_address_key
namenode_urls configuration namespace [] = ok []
namenode_urls configuration namespace (nn ∷ nns) =
    elim (truthy (get (rpc_address_key namespace nn) configuration)) [
      | none ↦ raise runtime_error
      | some url ↦ namenode_urls configuration namespace nns >>= (λ urls. ok (url ∷ urls))
    ]

-- `none` is Python's None: the name is no configured name service.
pub resolve_hdfs_name_service : Resolver → String → Result (Option (List String))
unfolding namenode_urls split join
resolve_hdfs_name_service r namespace =
    elim (truthy (get (join ("dfs.ha.namenodes." ∷ namespace ∷ [])) r.hadoop_configuration)) [
      | none ↦ ok none
      | some namenodes ↦
          namenode_urls r.hadoop_configuration namespace (split b',' namenodes)
          >>= (λ urls. ok (some urls))
    ]

-- `netloc` is the network location that urlparse finds in a URL.
pub resolve_default_hdfs_service : (String → String) → Resolver → Result (String × List String)
unfolding resolve_hdfs_name_service
resolve_default_hdfs_service netloc r = elim (truthy (get "fs.defaultFS" r.hadoop_configuration)) [
  | none ↦ raise runtime_error
  | some default_fs ↦
      resolve_hdfs_name_service r (netloc default_fs)
      >>= elim [ none ↦ raise io_error | some namenodes ↦ ok (netloc default_fs, namenodes) ]
]
