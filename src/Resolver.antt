-- ===== src/Resolver.antt =====
-- `Resolver` of identity_resolver/src/resolution/resolver.rs.
pub mod Multiple
use zk_identity.Prelude.{Option, none, some, List, [], ◌∷◌, Text, text_eq}
use zk_identity.Prelude.HashMap
use zk_identity.Prelude.HashMap.{HashMap}
use zk_identity.Prelude.Outcome.{Outcome, ok, err, ◌>>=◌}
use zk_identity.Core.OrderedSet
use zk_identity.Did.DidUrl.{CoreDid, did_eq, did_key}

-- The error of an attached handler is a text.
pub data ErrorCause : Type 0 where
  did_parsing_error handler_error : Text → ErrorCause
  unsupported_method_error : Text → ErrorCause
  unsupported_network : Text → ErrorCause

-- An attached handler, run to completion: it takes the text of a DID.
pub record Resolver (D : Type 0) : Type 0 where
  pub command_map : HashMap Text (Text → Outcome ErrorCause D)

-- `method` reads the method off a DID. `completions` is the order in which the futures for a list of
-- DIDs complete.
module _ {D : Type 0} (r : Resolver D) (method : CoreDid → Text) where
  unfoldable pub resolve : CoreDid → Outcome ErrorCause D
  resolve did = elim (HashMap.get r.command_map (method did)) [
    | none ↦ err (unsupported_method_error (method did))
    | some delegate ↦ delegate did.as_str
  ]

  -- `try_collect`: the documents in the order in which they arrive, up to the first error
  unfoldable pub try_collect :
      List CoreDid → HashMap CoreDid D → Outcome ErrorCause (HashMap CoreDid D)
  try_collect [] documents = ok documents
  try_collect (did ∷ rest) documents = do
    doc ← resolve did
    try_collect rest (HashMap.insert documents did doc)

  -- The `HashSet` keeps one of the DIDs that are equal.
  unfoldable pub resolve_multiple :
      (List CoreDid → List CoreDid) → List CoreDid → Outcome ErrorCause (HashMap CoreDid D)
  unfolding try_collect
  resolve_multiple completions dids =
      try_collect (completions (OrderedSet.from_iter dids).items) HashMap.new
