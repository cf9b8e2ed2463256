-- ===== src/Yum/Reposync/Whole/Layers.antt =====
-- The layers of the metadata that a sync pushes.
use beskar.Prelude.{String, Option, none, some, List, [], ◌∷◌}
use beskar.Prelude.Result.{Result}
use beskar.Yum.Mirror.{RepoMdData}
use beskar.Yum.Reposync.Whole.{MetadataIo, signature_name}

abbrev names : MetadataIo → List RepoMdData → List String
names io [] = []
names io (entry ∷ entries) = io.base entry.href ∷ names io entries

abbrev signature_layer : Option String → List String
signature_layer none = []
signature_layer (some signature) = signature_name ∷ []
