-- ===== src/Docker.antt =====
-- framework/docker.go: the Docker section of an application, and Marathon's container for it. The
-- records of the Marathon client are kept with the fields that the program sets.
use stack_deploy.Prelude.{String, Bool, List, [], ◌∷◌, map}
use stack_deploy.Prelude.Int.{ℤ}
use stack_deploy.Map.{Map}

pub record DockerPortMapping : Type 0 where
  pub container_port : ℤ
  pub host_port : ℤ
  pub service_port : ℤ
  pub protocol : String

pub record DockerVolume : Type 0 where
  pub container_path : String
  pub host_path : String
  pub mode : String

pub record Docker : Type 0 where
  pub force_pull_image : Bool
  pub image : String
  pub network : String
  pub parameters : Map String
  pub port_mappings : List DockerPortMapping
  pub privileged : Bool
  pub volumes : List DockerVolume

-- marathon.PortMapping, marathon.Volume and marathon.Parameters.
pub record PortMapping : Type 0 where
  pub container_port : ℤ
  pub host_port : ℤ
  pub service_port : ℤ
  pub protocol : String

pub record Volume : Type 0 where
  pub container_path : String
  pub host_path : String
  pub mode : String

pub record Parameter : Type 0 where
  pub key : String
  pub value : String

-- marathon.Container with its marathon.Docker. The empty list stands for Go's nil slice.
pub record Container : Type 0 where
  pub kind : String
  pub force_pull_image : Bool
  pub image : String
  pub network : String
  pub parameters : List Parameter
  pub port_mappings : List PortMapping
  pub privileged : Bool
  pub volumes : List Volume

marathon_port_mapping : DockerPortMapping → PortMapping
marathon_port_mapping m = record {
  container_port = m.container_port;
  host_port = m.host_port;
  service_port = m.service_port;
  protocol = m.protocol;
}

marathon_volume : DockerVolume → Volume
marathon_volume v = record {
  container_path = v.container_path;
  host_path = v.host_path;
  mode = v.mode;
}

marathon_parameters : Map String → List Parameter
marathon_parameters [] = []
marathon_parameters ((k, v) ∷ rest) = record { key = k; value = v } ∷ marathon_parameters rest

marathon_port_mappings : List DockerPortMapping → List PortMapping
unfolding marathon_port_mapping
marathon_port_mappings mappings = map marathon_port_mapping mappings

marathon_volumes : List DockerVolume → List Volume
unfolding marathon_volume
marathon_volumes volumes = map marathon_volume volumes

unfoldable pub marathon_container : Docker → Container
unfolding marathon_parameters marathon_port_mappings marathon_volumes
marathon_container d = record {
  kind = "DOCKER";
  force_pull_image = d.force_pull_image;
  image = d.image;
  network = d.network;
  parameters = marathon_parameters d.parameters;
  port_mappings = marathon_port_mappings d.port_mappings;
  privileged = d.privileged;
  volumes = marathon_volumes d.volumes;
}
