-- ===== src/Stress/Manifest.antt =====
-- `renderManifest`: the namespace, the service and the stateful set of one pool.
use px_smt_multirealm_shim.Common.{ℕ, ◌++◌}
use px_smt_multirealm_shim.Bytes.{Bytes, codes}
use px_smt_multirealm_shim.Bytes.Number.{decimal}
use px_smt_multirealm_shim.Stress.{Options}

unfoldable pub render_manifest : Options → Bytes → ℕ → Bytes
unfolding decimal
render_manifest o ns replicas =
    codes "apiVersion: v1\n"
    ++ codes "kind: Namespace\n"
    ++ codes "metadata:\n"
    ++ codes "  name: "
    ++ ns
    ++ codes "\n"
    ++ codes "  labels: {pxstress: \"true\"}\n"
    ++ codes "---\n"
    ++ codes "apiVersion: v1\n"
    ++ codes "kind: Service\n"
    ++ codes "metadata: {name: etcd, namespace: "
    ++ ns
    ++ codes "}\n"
    ++ codes "spec:\n"
    ++ codes "  clusterIP: None\n"
    ++ codes "  selector: {app: etcd}\n"
    ++ codes "  ports: [{name: client, port: 2379}]\n"
    ++ codes "---\n"
    ++ codes "apiVersion: apps/v1\n"
    ++ codes "kind: StatefulSet\n"
    ++ codes "metadata: {name: etcd, namespace: "
    ++ ns
    ++ codes "}\n"
    ++ codes "spec:\n"
    ++ codes "  serviceName: etcd\n"
    ++ codes "  replicas: "
    ++ decimal replicas
    ++ codes "\n"
    ++ codes "  selector: {matchLabels: {app: etcd}}\n"
    ++ codes "  template:\n"
    ++ codes "    metadata: {labels: {app: etcd}}\n"
    ++ codes "    spec:\n"
    ++ codes "      terminationGracePeriodSeconds: 5\n"
    ++ codes "      containers:\n"
    ++ codes "        - name: etcd\n"
    ++ codes "          image: "
    ++ o.etcd_image
    ++ codes "\n"
    ++ codes "          command: [\"etcd\"]\n"
    ++ codes "          args:\n"
    ++ codes "            - \"--name=n\"\n"
    ++ codes "            - \"--data-dir=/data/etcd\"\n"
    ++ codes "            - \"--listen-client-urls=http://0.0.0.0:2379\"\n"
    ++ codes "            - \"--advertise-client-urls=http://127.0.0.1:2379\"\n"
    ++ codes "            - \"--listen-peer-urls=http://0.0.0.0:2380\"\n"
    ++ codes "            - \"--initial-advertise-peer-urls=http://127.0.0.1:2380\"\n"
    ++ codes "            - \"--initial-cluster=n=http://127.0.0.1:2380\"\n"
    ++ codes "            - \"--initial-cluster-state=new\"\n"
    ++ codes "          env:\n"
    ++ codes "            - {name: ETCDCTL_API, value: \"3\"}\n"
    ++ codes "          volumeMounts: [{name: data, mountPath: /data}]\n"
    ++ codes "          readinessProbe:\n"
    ++ codes "            exec: {command: [\"etcdctl\", \"endpoint\", \"health\"]}\n"
    ++ codes "            initialDelaySeconds: 5\n"
    ++ codes "            periodSeconds: 5\n"
    ++ codes "            failureThreshold: 6\n"
    ++ codes "  volumeClaimTemplates:\n"
    ++ codes "    - metadata: {name: data}\n"
    ++ codes "      spec:\n"
    ++ codes "        accessModes: [\"ReadWriteOnce\"]\n"
    ++ codes "        storageClassName: "
    ++ o.storage_class
    ++ codes "\n"
    ++ codes "        resources: {requests: {storage: "
    ++ o.size
    ++ codes "}}\n"
