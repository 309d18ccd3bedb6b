-- ===== src/Commits/CommentsOnly.antt =====
-- The analysis of get_comments.py: py_analyze.py without the metrics of the changed files. Its other
-- functions are those of py_analyze.py, modelled in Commits.
pub mod Refines
use code_assist_analyzer.Prelude.{
  Bool, true, false, Option, none, some, List, [], ◌∷◌, String, string_eq, if◌then◌else◌, Result,
  ok, raise, Error,
}
use code_assist_analyzer.Prelude.Dict.{Dict, has_key, put}
use code_assist_analyzer.Commits.{Tools, get_comment_metrics, get_commit_details}

pub record CommentData : Type 0 where
  pub commit_hash : String
  pub author : String
  pub date : String
  pub overall_comment_metrics : Dict String String

-- the commit checked out, the server, and the files under json/
pub record CommentMachine (Server : Type 0) : Type 0 where
  pub head : String
  pub server : Server
  pub json : Dict String CommentData

module _ {Server : Type 0} (tools : Tools Server) where
  open tools use {checkout, scan}

  -- after the checkout and the details of the commit
  pub scan_and_save_comments :
      String × String × String → CommentMachine Server → CommentMachine Server
  scan_and_save_comments (h, author, date) machine =
      let (success, server) = scan machine.head machine.server in
      let scanned = record machine { server = server } in
      if success
      then record scanned {
        json =
            put h
              (record {
                commit_hash = h;
                author = author;
                date = date;
                overall_comment_metrics = get_comment_metrics tools server;
              })
              machine.json;
      }
      else scanned

  -- An iteration of the loop of `analyze_commits`; with an error, the script ends.
  pub analyze_comments : String → CommentMachine Server → CommentMachine Server × Option Error
  unfolding scan_and_save_comments
  analyze_comments commit_hash machine =
      let start = record machine { head = checkout commit_hash machine.head } in
      if has_key commit_hash machine.json
      then (machine, none)
      else elim (get_commit_details tools commit_hash) [
        | raise error ↦ (start, some error)
        | ok details ↦ (scan_and_save_comments details start, none)
      ]

  pub analyze_all_comments :
      List String → CommentMachine Server → CommentMachine Server × Option Error
  unfolding analyze_comments
  analyze_all_comments [] machine = (machine, none)
  analyze_all_comments (commit_hash ∷ commits) machine =
      let (machine', error) = analyze_comments commit_hash machine in
      elim error [ some e ↦ (machine', some e) | none ↦ analyze_all_comments commits machine' ]
