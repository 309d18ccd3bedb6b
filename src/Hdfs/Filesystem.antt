-- ===== src/Hdfs/Filesystem.antt =====
-- FilesystemResolver of dataset_toolkit/fs_utils.py. The connector and `urlparse` are parameters.
use code_assist_analyzer.Prelude.{
  not, Option, some, List, [], ◌∷◌, String, string_eq, ◌==◌, if◌then◌else◌, Result, ok, raise,
  value_error, ◌>>=◌,
}
use code_assist_analyzer.Prelude.Text.{join, split, is_truthy}
use code_assist_analyzer.Prelude.Dict.{Dict}
use code_assist_analyzer.Hdfs.Resolver
use code_assist_analyzer.Hdfs.Resolver.{
  Configuration, SiteXml, resolve_hdfs_name_service, resolve_default_hdfs_service,
}

-- the parts of a parsed URL that are read
pub record Url : Type 0 where
  pub scheme : String
  pub netloc : String
  pub path : String

pub record Connector (FileSystem : Type 0) : Type 0 where
  pub localfs : FileSystem
  pub connect_to_either_namenode : List String → Result FileSystem
  pub hdfs_connect_namenode : Url → Result FileSystem

pub record Resolved (FileSystem : Type 0) : Type 0 where
  pub parsed_dataset_url : Url
  pub filesystem : FileSystem

abbrev pub first_word : List String → String
first_word [] = ""
first_word (w ∷ words) = w

module _ {FileSystem : Type 0} (connector : Connector FileSystem) (urlparse : String → Url) where
  open connector use {localfs, connect_to_either_namenode, hdfs_connect_namenode}

  -- the name nodes of a name service, if there are any, or the URL as the host of one
  pub connect_named : Url → Option (List String) → Result (Resolved FileSystem)
  connect_named url (some (nn ∷ nns)) =
      connect_to_either_namenode (nn ∷ nns)
      >>= (λ fs. ok (record { parsed_dataset_url = url; filesystem = fs }))
  connect_named url _ =
      hdfs_connect_namenode url
      >>= (λ fs. ok (record { parsed_dataset_url = url; filesystem = fs }))

  pub resolve :
      (String → SiteXml)
      → Dict String String
      → Option Configuration
      → Url
      → Result (Resolved FileSystem)
  unfolding connect_named split join
  resolve parse environ hadoop_configuration url =
      if not (is_truthy url.scheme)
      then raise value_error
      else if url.scheme == "file"
      then ok (record { parsed_dataset_url = url; filesystem = localfs })
      else if url.scheme == "hdfs"
      then (Resolver.init parse environ hadoop_configuration >>= (λ resolver.
          if is_truthy url.netloc
          then (resolve_hdfs_name_service resolver (first_word (split b':' url.netloc))
              >>= connect_named url)
          else (do
            (nameservice, namenodes) ←
                resolve_default_hdfs_service (λ u. (urlparse u).netloc) resolver
            fs ← connect_to_either_namenode namenodes
            ok (record {
              parsed_dataset_url = urlparse (join ("hdfs://" ∷ nameservice ∷ url.path ∷ []));
              filesystem = fs;
            }))))
      else raise value_error
